-- ===== src/Dispatcher.antt =====
-- seekserve-core/src/alert_dispatcher.cpp and alert_dispatcher.hpp: `AlertDispatcher`. An alert is a
-- value `A` with a number for its type, and a handler changes a state `S`. libtorrent's session is the
-- list of what `pop_alerts` returns in each round of the thread.
pub mod Laws
use seekserve.Common.{
  ℕ, Bool, true, false, not, Option, none, some, List, [], ◌∷◌, ◌++◌, ◌==◌, if◌then◌else◌,
}

-- The state behind a call of a handler, and whether it threw: what it wrote before stays written.
pub record Handled {ℓ} (S : Type ℓ) : Type ℓ where
  pub state : S
  pub threw : Bool

-- A round of the thread: `running_` behind the wait, and the alerts that are popped then.
pub record Round {ℓ} (A : Type ℓ) : Type ℓ where
  pub still_running : Bool
  pub alerts : List A

abbrev pub Handlers {ℓ κ} : Type ℓ → Type κ → Type (ℓ ⊔ κ)
Handlers A S = List (ℕ × (A → S → Handled S))

-- handlers_[type] = handler
unfoldable pub assign {ℓ κ} :
    {A : Type ℓ} {S : Type κ} → ℕ → (A → S → Handled S) → Handlers A S → Handlers A S
assign t h [] = (t, h) ∷ []
assign t h ((u, g) ∷ hs) = if u == t then (t, h) ∷ hs else (u, g) ∷ assign t h hs

unfoldable pub find_handler {ℓ κ} :
    {A : Type ℓ} {S : Type κ} → ℕ → Handlers A S → Option (A → S → Handled S)
find_handler t [] = none
find_handler t ((u, g) ∷ hs) = if u == t then some g else find_handler t hs

module _ {ℓ κ} {A : Type ℓ} {S : Type κ} (type_of : A → ℕ) where
  -- The wrapper that `on` registers: alert_cast is null for an alert of another type.
  abbrev pub cast_to : ℕ → (A → S → Handled S) → A → S → Handled S
  cast_to t h a s = if type_of a == t then h a s else record { state = s; threw = false }

  abbrev pub on : ℕ → (A → S → Handled S) → Handlers A S → Handlers A S
  on t h hs = assign t (cast_to t h) hs

  -- An exception is logged and ends with the alert.
  unfoldable pub call_handler : Option (A → S → Handled S) → A → S → S
  call_handler none a s = s
  call_handler (some h) a s = (h a s).state

  -- One alert: its handler, if there is one.
  unfoldable pub handle : Handlers A S → A → S → S
  unfolding find_handler call_handler
  handle hs a s = call_handler (find_handler (type_of a) hs) a s

  unfoldable pub dispatch : Handlers A S → List A → S → S
  unfolding handle
  dispatch hs [] s = s
  dispatch hs (a ∷ as') s = dispatch hs as' (handle hs a s)

  unfoldable pub run : Handlers A S → List (Round A) → S → S
  unfolding dispatch
  run hs [] s = s
  run hs (r ∷ rs) s =
      let rest = run hs rs (dispatch hs r.alerts s) in if not r.still_running then s else rest

-- `running_.exchange`: the flag behind `start` and `stop`, and whether the call starts or joins the
-- thread.
unfoldable pub start : Bool → Bool × Bool
start running = (true, not running)

unfoldable pub stop : Bool → Bool × Bool
stop running = (false, running)
