-- ===== src/Dispatcher/Laws.antt =====
-- Which handler an alert meets, and which alerts are handled.
use seekserve.Common.{
  subst, ℕ, ◌≡◌, ◌≢◌, ==_false, equal_cases, refl, sym, ap, ◌∙◌, true, false, Option, some, List,
  [], ◌∷◌, ◌++◌, arith, ◌==◌, ==_iff, if◌then◌else◌, inl, inr, Bool-cases,
}
use seekserve.Dispatcher.{
  Handled, Round, Handlers, cast_to, assign, on, find_handler, call_handler, handle, dispatch, run,
}

abbrev pub rounds_alerts {ℓ} : {A : Type ℓ} → List (Round A) → List A
rounds_alerts [] = []
rounds_alerts (r ∷ rs) = r.alerts ++ rounds_alerts rs

abbrev pub IsRunning {ℓ} : {A : Type ℓ} → List (Round A) → Type 0
IsRunning [] = Unit
IsRunning (r ∷ rs) = (r.still_running ≡ true) × IsRunning rs

module _ {ℓ κ} {A : Type ℓ} {S : Type κ} where
  pub find_handler-assign :
      (t u : ℕ) (h : A → S → Handled S) (hs : Handlers A S)
      → find_handler u (assign t h hs) ≡ (if t == u then some h else find_handler u hs)
  unfolding find_handler assign
  find_handler-assign t u h [] = refl
  find_handler-assign t u h ((v, g) ∷ hs) = ground (arith, find_handler-assign t u h hs)

  find_handler-assign_same :
      (t u : ℕ) (h : A → S → Handled S) (hs : Handlers A S)
      → t ≡ u
      → find_handler u (assign t h hs) ≡ some h
  find_handler-assign_same t u h hs e =
      ground (arith, find_handler-assign t u h hs, (==_iff t u).1 e)

  find_handler-assign_other :
      (t u : ℕ) (h : A → S → Handled S) (hs : Handlers A S)
      → t ≢ u
      → find_handler u (assign t h hs) ≡ find_handler u hs
  find_handler-assign_other t u h hs n =
      ground (arith, find_handler-assign t u h hs, ==_false t u n)

module _ {ℓ κ} {A : Type ℓ} {S : Type κ} (type_of : A → ℕ) where
  cast_to-same :
      (t : ℕ) (h : A → S → Handled S) (a : A) (s : S)
      → t ≡ type_of a
      → cast_to type_of t h a s ≡ h a s
  cast_to-same t h a s e = rw ((==_iff (type_of a) t).1 (sym e)) refl

  pub handle-nil : (a : A) (s : S) → handle {S = S} type_of [] a s ≡ s
  unfolding handle find_handler call_handler
  handle-nil a s = refl

  -- The alert of a handler's own type, and of another type, by the handler that was registered last.
  pub handle-on :
      (t : ℕ) (h : A → S → Handled S) (hs : Handlers A S) (a : A) (s : S)
      → t ≡ type_of a
      → handle type_of (on type_of t h hs) a s ≡ (h a s).state
  unfolding handle call_handler
  handle-on t h hs a s e =
      ap (λ x. call_handler type_of x a s)
        (find_handler-assign_same t (type_of a) (cast_to type_of t h) hs e)
      ∙ ap Handled.state (cast_to-same t h a s e)

  pub handle-on_other :
      (t : ℕ) (h : A → S → Handled S) (hs : Handlers A S) (a : A) (s : S)
      → t ≢ type_of a
      → handle type_of (on type_of t h hs) a s ≡ handle type_of hs a s
  unfolding handle
  handle-on_other t h hs a s n =
      ap (λ x. call_handler type_of x a s)
        (find_handler-assign_other t (type_of a) (cast_to type_of t h) hs n)

  -- A handler that leaves the state alone changes nothing for an alert that is ignored without it.
  pub handle-on_quiet :
      (t : ℕ) (h : A → S → Handled S) (hs : Handlers A S) (a : A) (s : S)
      → (h a s).state ≡ s
      → handle type_of hs a s ≡ s
      → handle type_of (on type_of t h hs) a s ≡ s
  handle-on_quiet t h hs a s quiet rest = elim (equal_cases t (type_of a)) [
    | inl e ↦ handle-on t h hs a s e ∙ quiet
    | inr n ↦ handle-on_other t h hs a s n ∙ rest
  ]

  -- What both the new handler and the table without it bring about, the table with it does.
  pub handle-on_either :
      (P : S → Type 0) (t : ℕ) (h : A → S → Handled S) (hs : Handlers A S) (a : A) (s : S)
      → P (h a s).state
      → P (handle type_of hs a s)
      → P (handle type_of (on type_of t h hs) a s)
  handle-on_either P t h hs a s new old = elim (equal_cases t (type_of a)) [
    | inl e ↦ subst P (sym (handle-on t h hs a s e)) new
    | inr n ↦ subst P (sym (handle-on_other t h hs a s n)) old
  ]

  dispatch-append :
      (hs : Handlers A S) (as' bs : List A) (s : S)
      → dispatch type_of hs (as' ++ bs) s ≡ dispatch type_of hs bs (dispatch type_of hs as' s)
  unfolding dispatch
  dispatch-append hs [] bs s = refl
  dispatch-append hs (a ∷ as') bs s = dispatch-append hs as' bs (handle type_of hs a s)

  -- Two tables that find the same handlers do the same with every list of alerts.
  dispatch-same :
      (hs gs : Handlers A S)
      → ((t : ℕ) → find_handler t hs ≡ find_handler t gs)
      → (as' : List A) (s : S) → dispatch type_of hs as' s ≡ dispatch type_of gs as' s
  unfolding dispatch handle
  dispatch-same hs gs e [] s = refl
  dispatch-same hs gs e (a ∷ as') s =
      ap (λ h. dispatch type_of hs as' (call_handler type_of h a s)) (e (type_of a))
      ∙ dispatch-same hs gs e as' (call_handler type_of (find_handler (type_of a) gs) a s)

  -- A second registration for a type takes the place of the first: every list of alerts is handled as if
  -- the first had not been made, whatever handlers the two are and whatever other handlers there are.
  pub dispatch-on :
      (t : ℕ) (first second : A → S → Handled S) (hs : Handlers A S) (as' : List A) (s : S)
      → dispatch type_of (on type_of t second (on type_of t first hs)) as' s
        ≡ dispatch type_of (on type_of t second hs) as' s
  dispatch-on t first second hs =
      dispatch-same (on type_of t second (on type_of t first hs)) (on type_of t second hs) (λ u.
        find_handler-assign t u (cast_to type_of t second) (on type_of t first hs)
        ∙ ap (λ x. if t == u then some (cast_to type_of t second) else x)
            (find_handler-assign t u (cast_to type_of t first) hs)
        ∙ same t u (cast_to type_of t second) (cast_to type_of t first) (find_handler u hs)
        ∙ sym (find_handler-assign t u (cast_to type_of t second) hs))
    where
      same :
          (t u : ℕ) (h g : A → S → Handled S) (x : Option (A → S → Handled S))
          → (if t == u then some h else if t == u then some g else x)
            ≡ (if t == u then some h else x)
      same t u h g x = elim (Bool-cases (t == u)) [ inl e ↦ rw e refl | inr e ↦ rw e refl ]

  -- Until the dispatcher is stopped the thread handles every alert of every round, in the order of their
  -- arrival; from the round on in which it sees that it was stopped it handles none.
  pub run-append :
      (hs : Handlers A S) (rs : List (Round A)) (last : Round A) (later : List (Round A)) (s : S)
      → IsRunning rs
      → last.still_running ≡ false
      → run type_of hs (rs ++ (last ∷ later)) s ≡ dispatch type_of hs (rounds_alerts rs) s
  unfolding run dispatch
  run-append hs [] last later s all stopped = rw stopped refl
  run-append hs (r ∷ rs) last later s (up, all) stopped = rw up (
      run-append hs rs last later (dispatch type_of hs r.alerts s) all stopped
      ∙ sym (dispatch-append hs r.alerts (rounds_alerts rs) s))
