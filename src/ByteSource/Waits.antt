-- ===== src/ByteSource/Waits.antt =====
-- What a wait of `read` may come to, under every schedule of the other threads.
use seekserve.Common.{
  ℕ, ◌≡◌, refl, sym, ap, subst, ◌∙◌, Bool, true, false, inl, inr, Option, none, some, List, [], ◌∷◌,
  ◌++◌, arith, Bool-cases, Option-cases, take, drop,
}
use seekserve.Common.Bytes.{Bytes}
use seekserve.Types.{PieceIndex, PieceSpan, ok}
use seekserve.Availability.{is_complete, is_span_complete}
use seekserve.Availability.Marks.{is_complete_mono}
use seekserve.Availability.Runs.{is_span_complete_iff}
use seekserve.ByteSource.{
  Disk, Shared, Wake, marks, cancels, wakes, times_out, happen, settle, ready, sleep, wait_for,
  read_from_disk, finish_read, resume,
}

-- Pieces stay complete, and a cancelled source stays cancelled.
pub record Grows (s t : Shared) : Type 0 where
  pub keeps : (q : PieceIndex) → is_complete s.avail q ≡ true → is_complete t.avail q ≡ true
  pub stays : s.is_cancelled ≡ true → t.is_cancelled ≡ true

pub Grows-trans : {s t u : Shared} → Grows s t → Grows t u → Grows s u
Grows-trans g h = record {
  keeps = λ q e. h.keeps q (g.keeps q e);
  stays = λ e. h.stays (g.stays e);
}

pub Grows-same : (s : Shared) → Grows s s
Grows-same s = record { keeps = λ q e. e; stays = λ e. e }

pub happen-Grows : (s : Shared) (w : Wake) → Grows s (happen s w)
unfolding happen
happen-Grows s (marks p) = record { keeps = λ q e. is_complete_mono s.avail p q e; stays = λ e. e }
happen-Grows s cancels = record { keeps = λ q e. e; stays = λ e. refl }
happen-Grows s wakes = Grows-same s
happen-Grows s times_out = Grows-same s

pub settle-Grows : (s : Shared) (ws : List Wake) → Grows s (settle s ws)
unfolding settle
settle-Grows s [] = Grows-same s
settle-Grows s (w ∷ ws) = Grows-trans (happen-Grows s w) (settle-Grows (happen s w) ws)

pub settle-append : (s : Shared) (ws vs : List Wake) → settle s (ws ++ vs) ≡ settle (settle s ws) vs
unfolding settle
settle-append s [] vs = refl
settle-append s (w ∷ ws) vs = settle-append (happen s w) ws vs

-- How a wait ends: in a state on the way to the end of the schedule, with the predicate's value there.
pub record Ends (span : PieceSpan) (s : Shared) (ws : List Wake) (t : Shared) (b : Bool)
    : Type 0 where
  pub on_the_way : Grows t (settle s ws)
  pub answers : b ≡ ready span t

pub Ends-here :
    (span : PieceSpan) (s : Shared) (ws : List Wake) (c : Bool) {t : Shared} {b : Bool}
    → c ≡ ready span s
    → ◌≡◌ {A = Option (Shared × Bool)} (some (s, c)) (some (t, b))
    → Ends span s ws t b
Ends-here span s ws c {t} {b} h e =
    let s_is : s ≡ t = ap (λ (o : Option (Shared × Bool)). state_of o) e in
    let c_is : c ≡ b = ap (λ (o : Option (Shared × Bool)). answer_of o) e in
    record {
      on_the_way = subst (λ u. Grows u (settle s ws)) s_is (settle-Grows s ws);
      answers = sym c_is ∙ h ∙ ap (ready span) s_is;
    }
  where
    state_of : Option (Shared × Bool) → Shared
    state_of none = s
    state_of (some (u, d)) = u

    answer_of : Option (Shared × Bool) → Bool
    answer_of none = c
    answer_of (some (u, d)) = d

pub Ends-later :
    (span : PieceSpan) (s : Shared) (w : Wake) (ws : List Wake) {t : Shared} {b : Bool}
    → Ends span (happen s w) ws t b
    → Ends span s (w ∷ ws) t b
unfolding settle
Ends-later span s w ws r = record { on_the_way = r.on_the_way; answers = r.answers }

pub Ends-awake :
    (span : PieceSpan) (s : Shared) (ws : List Wake) {t : Shared} {b : Bool}
    → Ends span s ws t b
    → Ends span s (wakes ∷ ws) t b
unfolding settle happen
Ends-awake span s ws r = record { on_the_way = r.on_the_way; answers = r.answers }

pub sleep-Ends :
    (span : PieceSpan) (s : Shared) (ws : List Wake) {t : Shared} {b : Bool}
    → sleep span s ws ≡ some (t, b)
    → Ends span s ws t b
unfolding sleep
sleep-Ends span s [] e = cc
sleep-Ends span s (marks p ∷ ws) e =
    Ends-later span s (marks p) ws (sleep-Ends span (happen s (marks p)) ws e)
sleep-Ends span s (cancels ∷ ws) e =
    Ends-later span s cancels ws (sleep-Ends span (happen s cancels) ws e)
sleep-Ends span s (wakes ∷ ws) e = elim (Bool-cases (ready span s)) [
  | inl up ↦ Ends-here span s (wakes ∷ ws) true (sym up) (rw (up, sleep) at e)
  | inr not_yet ↦ Ends-awake span s ws (sleep-Ends span s ws (rw (not_yet, sleep) at e))
]
sleep-Ends span s (times_out ∷ ws) e = Ends-here span s (times_out ∷ ws) (ready span s) refl e

pub wait_for-Ends :
    (span : PieceSpan) (s : Shared) (ws : List Wake) {t : Shared} {b : Bool}
    → wait_for span s ws ≡ some (t, b)
    → Ends span s ws t b
unfolding wait_for
wait_for-Ends span s ws e = elim (Bool-cases (ready span s)) [
  | inl up ↦ Ends-here span s ws true (sym up) (rw (up, wait_for) at e)
  | inr not_yet ↦ sleep-Ends span s ws (rw (not_yet, wait_for) at e)
]

-- The bytes that a file holds from `offset` on, `len` of them at most.
abbrev pub IsSlice : Disk → Bytes → ℕ → ℕ → Bytes → Type 0
IsSlice disk path offset len slice =
    (content : Bytes) × (disk.open_file path ≡ some content)
    × (slice ≡ take len (drop offset content))

pub read_from_disk-IsSlice :
    (disk : Disk) (path : Bytes) (offset len : ℕ) {slice : Bytes}
    → read_from_disk disk path offset len ≡ ok slice
    → IsSlice disk path offset len slice
unfolding read_from_disk
read_from_disk-IsSlice disk path offset len {slice} e = elim (Option-cases (disk.open_file path)) [
  | inl missing ↦ absurd (ground arith)
  | inr (content, opened) ↦ (content, opened, ground arith)
]

pub finish_ok :
    (disk : Disk) (path : Bytes) (offset len : ℕ) (s : Shared) (b : Bool) {slice : Bytes}
    → finish_read disk path offset len s b ≡ ok slice
    → (s.is_cancelled ≡ false) × (b ≡ true) × (read_from_disk disk path offset len ≡ ok slice)
unfolding finish_read
finish_ok disk path offset len s b e = ground arith

pub resume_ok :
    (disk : Disk) (path : Bytes) (offset len : ℕ) (later : List Wake) (o : Option (Shared × Bool))
    {slice : Bytes}
    → resume disk path offset len later o ≡ some (ok slice)
    → (t : Shared) × (b : Bool) × (o ≡ some (t, b))
      × (finish_read disk path offset len (settle t later) b ≡ ok slice)
unfolding resume
resume_ok disk path offset len later none e = cc
resume_ok disk path offset len later (some (t, b)) e = (t, b, refl, cc)

pub not-cancelled : (s t : Shared) → Grows s t → t.is_cancelled ≡ false → s.is_cancelled ≡ false
not-cancelled s t g e = ground (arith, g.stays)

pub ready_complete :
    (span : PieceSpan) (s : Shared)
    → s.is_cancelled ≡ false
    → ready span s ≡ true
    → is_span_complete s.avail span ≡ true
unfolding ready
ready_complete span s live up = rw live at up

pub Grows-complete :
    (span : PieceSpan) (s t : Shared)
    → Grows s t
    → is_span_complete s.avail span ≡ true
    → is_span_complete t.avail span ≡ true
Grows-complete span s t g e =
    (is_span_complete_iff t.avail span).1
      λ q lo hi. g.keeps q ((is_span_complete_iff s.avail span).0 e q lo hi)

-- The time of the wait is not up within the schedule.
abbrev pub IsPatient : List Wake → Type 0
IsPatient [] = Unit
IsPatient (marks p ∷ ws) = IsPatient ws
IsPatient (cancels ∷ ws) = IsPatient ws
IsPatient (wakes ∷ ws) = IsPatient ws
IsPatient (times_out ∷ ws) = ⊥

-- A wait that is over, with the predicate's value true, in a state on the way to `s`.
abbrev pub IsAwake : PieceSpan → Shared → Option (Shared × Bool) → Type 0
IsAwake span s o = (t : Shared) × (o ≡ some (t, true)) × (ready span t ≡ true) × Grows t s

-- A thread that is woken once the predicate holds goes on, if its time was not up before.
pub sleep-IsAwake :
    (span : PieceSpan) (s : Shared) (ws vs : List Wake)
    → IsPatient ws
    → ready span (settle s ws) ≡ true
    → IsAwake span (settle s ws) (sleep span s (ws ++ (wakes ∷ vs)))
unfolding sleep settle happen
sleep-IsAwake span s [] vs h up = (s, rw (up, sleep) refl, up, Grows-same s)
sleep-IsAwake span s (marks p ∷ ws) vs h up = sleep-IsAwake span (happen s (marks p)) ws vs h up
sleep-IsAwake span s (cancels ∷ ws) vs h up = sleep-IsAwake span (happen s cancels) ws vs h up
sleep-IsAwake span s (wakes ∷ ws) vs h up = elim (Bool-cases (ready span s)) [
  | inl now ↦ (s, rw (now, sleep) refl, now, settle-Grows s ws)
  | inr not_yet ↦ rw (not_yet, sleep) (sleep-IsAwake span s ws vs h up)
]
sleep-IsAwake span s (times_out ∷ ws) vs h up = absurd h

pub wait_for-IsAwake :
    (span : PieceSpan) (s : Shared) (ws vs : List Wake)
    → IsPatient ws
    → ready span (settle s ws) ≡ true
    → IsAwake span (settle s ws) (wait_for span s (ws ++ (wakes ∷ vs)))
unfolding wait_for
wait_for-IsAwake span s ws vs h up = elim (Bool-cases (ready span s)) [
  | inl now ↦ (s, rw (now, wait_for) refl, now, settle-Grows s ws)
  | inr not_yet ↦ rw (not_yet, wait_for) (sleep-IsAwake span s ws vs h up)
]

pub complete_ready :
    (span : PieceSpan) (s : Shared) → is_span_complete s.avail span ≡ true → ready span s ≡ true
unfolding ready
complete_ready span s e = ground (arith, e)

pub cancelled_ready : (span : PieceSpan) (s : Shared) → s.is_cancelled ≡ true → ready span s ≡ true
unfolding ready
cancelled_ready span s e = ground (arith, e)

-- Before the span is complete, the predicate holds only of a cancelled source.
pub ready_cancelled :
    (span : PieceSpan) (t s : Shared)
    → Grows t s
    → is_span_complete s.avail span ≡ false
    → ready span t ≡ true
    → t.is_cancelled ≡ true
unfolding ready
ready_cancelled span t s g missing up = ground (arith, Grows-complete span t s g, missing, up)

happen-cancelled :
    (t s : Shared) (w : Wake)
    → (t.is_cancelled ≡ true → s.is_cancelled ≡ true)
    → (happen t w).is_cancelled ≡ true
    → (happen s w).is_cancelled ≡ true
unfolding happen
happen-cancelled t s (marks p) h e = h e
happen-cancelled t s cancels h e = refl
happen-cancelled t s wakes h e = h e
happen-cancelled t s times_out h e = h e

-- The same events cancel at least as much in a later state.
pub settle-cancelled :
    (t s : Shared) (ws : List Wake)
    → (t.is_cancelled ≡ true → s.is_cancelled ≡ true)
    → (settle t ws).is_cancelled ≡ true
    → (settle s ws).is_cancelled ≡ true
unfolding settle
settle-cancelled t s [] h e = h e
settle-cancelled t s (w ∷ ws) h e =
    settle-cancelled (happen t w) (happen s w) ws (happen-cancelled t s w h) e

pub settle-live :
    (t s : Shared) (ws : List Wake)
    → Grows t s
    → (settle s ws).is_cancelled ≡ false
    → (settle t ws).is_cancelled ≡ false
settle-live t s ws g live = ground (arith, settle-cancelled t s ws g.stays, live)
