-- ===== src/Http/Stream/Body.antt =====
-- What the loop sends: a part of the file, whole when it leaves the loop, and it does end.
use seekserve.Common.{
  Option, none, some, ℕ, zero, suc, ◌+◌, ◌-◌, ◌≤◌, ◌<◌, ◌≡◌, ◌≢◌, refl, sym, ap, ap₂, ◌∙◌, true,
  false, [], ◌∷◌, ◌++◌, arith, ltb, if◌then◌else◌, length, take, drop, min, inl, inr, Bool-cases,
  length-take, ltb→lt,
}
use seekserve.Common.Bytes.{Bytes}
use seekserve.Types.{Result, ok, err}
use seekserve.Http.Stream.{
  chunk_size, Outcome, left_loop, read_failed, out_of_fuel, Streamed, Reader, Writes, after_read,
  bytes_read, body_loop, stream_body,
}

-- Every read that succeeds returns the file's bytes from the offset on, as `ByteSource.Read.read_ok`
-- shows of the source.
abbrev pub Reads : Bytes → Reader → Type 0
Reads content rd =
    (k offset len : ℕ) (chunk : Bytes)
    → rd k offset len ≡ ok chunk
    → chunk ≡ take len (drop offset content)

take_nil : (n : ℕ) → ◌≡◌ {A = Bytes} (take n []) []
take_nil zero = refl
take_nil (suc n) = refl

drop_nil : (n : ℕ) → ◌≡◌ {A = Bytes} (drop n []) []
drop_nil zero = refl
drop_nil (suc n) = refl

zero_plus : (b : ℕ) → b ≡ 0 + b
zero_plus b = omega arith

suc_plus : (a b : ℕ) → suc (a + b) ≡ suc a + b
suc_plus a b = omega arith

take-drop : (a b : ℕ) (s : Bytes) → take a s ++ take b (drop a s) ≡ take (a + b) s
take-drop zero b s = ap (λ (n : ℕ). take n s) (zero_plus b)
take-drop (suc a) b [] = rw (take_nil b, take_nil (suc a + b)) refl
take-drop (suc a) b (c ∷ s) =
    ap (◌∷◌ c) (take-drop a b s) ∙ ap (λ (n : ℕ). take n (c ∷ s)) (suc_plus a b)

drop-drop : (a b : ℕ) (s : Bytes) → drop b (drop a s) ≡ drop (a + b) s
drop-drop zero b s = ap (λ (n : ℕ). drop n s) (zero_plus b)
drop-drop (suc a) b [] = rw (drop_nil b, drop_nil (suc a + b)) refl
drop-drop (suc a) b (c ∷ s) = drop-drop a b s ∙ ap (λ (n : ℕ). drop n (c ∷ s)) (suc_plus a b)

-- A take that comes out short has taken everything.
take_short : (a b : ℕ) (s : Bytes) → length (take a s) < a → a ≤ b → take a s ≡ take b s
take_short zero b s h le = absurd (omega arith)
take_short (suc a) zero s h le = absurd (omega arith)
take_short (suc a) (suc b) [] h le = refl
take_short (suc a) (suc b) (c ∷ s) h le =
    ap (◌∷◌ c) (take_short a b s (omega (arith, h)) (omega arith))

take-take : (a b : ℕ) (s : Bytes) → take a (take b s) ≡ take (min a b) s
take-take zero b s = rw zero-min refl
  where
    zero-min : min 0 b ≡ 0
    zero-min = omega arith
take-take (suc a) zero s = rw min-zero refl
  where
    min-zero : min (suc a) 0 ≡ 0
    min-zero = omega arith
take-take (suc a) (suc b) [] = rw (take_nil (min (suc a) (suc b))) refl
take-take (suc a) (suc b) (c ∷ s) = rw (min-suc a b) (ap (◌∷◌ c) (take-take a b s))
  where
    min-suc : (n m : ℕ) → min (suc n) (suc m) ≡ suc (min n m)
    min-suc n m = omega arith

-- The first `remaining` bytes from the offset on.
abbrev slice : Bytes → ℕ → ℕ → Bytes
slice content offset len = take len (drop offset content)

slice-join :
    (content : Bytes) (offset a b : ℕ)
    → slice content offset a ++ slice content (offset + a) b ≡ slice content offset (a + b)
slice-join content offset a b =
    rw (sym (drop-drop offset a content)) (take-drop a b (drop offset content))

-- What is sent is the slice of some length.
record IsPart (content : Bytes) (offset remaining : ℕ) (st : Streamed) : Type 0 where
  amount : ℕ
  fits : amount ≤ remaining
  sent_is : st.sent ≡ slice content offset amount

module _ (content : Bytes) where
  nothing :
      (offset remaining : ℕ) (o : Outcome)
      → IsPart content offset remaining (record { sent = []; outcome = o })
  nothing offset remaining o = record { amount = 0; fits = omega arith; sent_is = refl }

  chunk_le :
      (offset chunk_len : ℕ) (chunk : Bytes)
      → chunk ≡ slice content offset chunk_len
      → length chunk ≤ chunk_len
  chunk_le offset chunk_len chunk e =
      omega (arith, length-take chunk_len (drop offset content), ap length e)

  -- A chunk that is not short is a slice of its own length.
  full_chunk :
      (offset chunk_len : ℕ) (chunk : Bytes)
      → chunk ≡ slice content offset chunk_len
      → ltb (length chunk) chunk_len ≡ false
      → (length chunk ≡ chunk_len) × (chunk ≡ slice content offset (length chunk))
  full_chunk offset chunk_len chunk e full =
      let same = full_length (length chunk) chunk_len full (chunk_le offset chunk_len chunk e) in
      (same, e ∙ ap (slice content offset) (sym same))
    where
      full_length : (n m : ℕ) → ltb n m ≡ false → n ≤ m → n ≡ m
      full_length n m f le = ground arith

  after_read-IsPart :
      (r : Result Bytes) (w : Option ℕ) (offset chunk_len remaining : ℕ) (rest : Streamed)
      → chunk_len ≤ remaining
      → ((chunk : Bytes) → r ≡ ok chunk → chunk ≡ slice content offset chunk_len)
      → IsPart content (offset + bytes_read r) (remaining - bytes_read r) rest
      → IsPart content offset remaining (after_read r w chunk_len rest)
  unfolding after_read
  after_read-IsPart (err e) w offset chunk_len remaining rest le reads part =
      nothing offset remaining (read_failed e)
  after_read-IsPart (ok chunk) (some written) offset chunk_len remaining rest le reads part =
      record {
        amount = min written chunk_len;
        fits = omega (arith, le);
        sent_is =
            ap (take written) (reads chunk refl)
            ∙ take-take written chunk_len (drop offset content);
      }
  after_read-IsPart (ok chunk) none offset chunk_len remaining rest le reads part =
      elim (Bool-cases (ltb (length chunk) chunk_len)) [
        | inl short ↦
            rw short (record { amount = chunk_len; fits = le; sent_is = reads chunk refl })
        | inr full ↦
            let (same, chunk_is) = full_chunk offset chunk_len chunk (reads chunk refl) full in
            rw full (record {
              amount = length chunk + part.amount;
              fits = omega (arith, part.fits, same);
              sent_is =
                  ap₂ (λ (x y : Bytes). x ++ y) chunk_is part.sent_is
                  ∙ slice-join content offset (length chunk) part.amount;
            })
      ]

  after_read-whole :
      (r : Result Bytes) (w : Option ℕ) (offset chunk_len remaining : ℕ) (rest : Streamed)
      → chunk_len ≤ remaining
      → ((chunk : Bytes) → r ≡ ok chunk → chunk ≡ slice content offset chunk_len)
      → (rest.outcome ≡ left_loop
          → rest.sent ≡ slice content (offset + bytes_read r) (remaining - bytes_read r))
      → (after_read r w chunk_len rest).outcome ≡ left_loop
      → (after_read r w chunk_len rest).sent ≡ slice content offset remaining
  unfolding after_read
  after_read-whole (err e) w offset chunk_len remaining rest le reads whole h = cc
  after_read-whole (ok chunk) (some written) offset chunk_len remaining rest le reads whole h = cc
  after_read-whole (ok chunk) none offset chunk_len remaining rest le reads whole h =
      elim (Bool-cases (ltb (length chunk) chunk_len)) [
        | inl short ↦ rw short (
            reads chunk refl
            ∙ take_short chunk_len remaining (drop offset content)
                (omega (arith, ap length (reads chunk refl), ltb→lt (length chunk) chunk_len short))
                le)
        | inr full ↦
            let (same, chunk_is) = full_chunk offset chunk_len chunk (reads chunk refl) full in
            rw full (
              ap₂ (λ (x y : Bytes). x ++ y) chunk_is (whole (rw full at h))
              ∙ slice-join content offset (length chunk) (remaining - length chunk)
              ∙ ap (slice content offset) (omega (arith, same)))
      ]

module _ (content : Bytes) (rd : Reader) (wr : Writes) (reads : Reads content rd) where
  body_loop-IsPart :
      (fuel k offset remaining : ℕ)
      → IsPart content offset remaining (body_loop rd wr fuel k offset remaining)
  unfolding body_loop
  body_loop-IsPart zero k offset remaining = nothing content offset remaining _
  body_loop-IsPart (suc fuel) k offset remaining =
      let chunk_len = min chunk_size remaining in
      let r = rd k offset chunk_len in
      let rest = body_loop-IsPart fuel (suc k) (offset + bytes_read r) (remaining - bytes_read r) in
      elim (Bool-cases (ltb 0 remaining)) [
        | inl more ↦ rw more (
            after_read-IsPart content r (wr k) offset chunk_len remaining _ (omega arith)
              (reads k offset chunk_len) rest)
        | inr done ↦ rw done (nothing content offset remaining left_loop)
      ]

  body_loop-whole :
      (fuel k offset remaining : ℕ)
      → (body_loop rd wr fuel k offset remaining).outcome ≡ left_loop
      → (body_loop rd wr fuel k offset remaining).sent ≡ slice content offset remaining
  unfolding body_loop
  body_loop-whole zero k offset remaining h = nothing_left remaining h
    where
      nothing_left :
          (n : ℕ)
          → (if ltb 0 n then out_of_fuel else left_loop) ≡ left_loop
          → [] ≡ slice content offset n
      nothing_left zero e = refl
      nothing_left (suc n) e = ground arith
  body_loop-whole (suc fuel) k offset remaining h =
      let chunk_len = min chunk_size remaining in
      let r = rd k offset chunk_len in
      elim (Bool-cases (ltb 0 remaining)) [
        | inl more ↦ rw more (
            after_read-whole content r (wr k) offset chunk_len remaining _ (omega arith)
              (reads k offset chunk_len)
              (body_loop-whole fuel (suc k) (offset + bytes_read r) (remaining - bytes_read r))
              (rw more at h))
        | inr done ↦ rw done (nothing_wanted remaining done)
      ]
    where
      nothing_wanted : (n : ℕ) → ltb 0 n ≡ false → [] ≡ slice content offset n
      nothing_wanted zero e = refl
      nothing_wanted (suc n) e = absurd (ground arith)

  -- The bytes that go over the socket are a slice of the file that begins at the start offset and is
  -- no longer than the announced length, however the reads and writes end, also when a write fails behind
  -- a part of its chunk, if every read that succeeds returns the file's bytes.
  pub stream_body-IsPart :
      (start len : ℕ)
      → (n : ℕ) × (n ≤ len) × ((stream_body rd wr start len).sent ≡ take n (drop start content))
  unfolding stream_body
  stream_body-IsPart start len =
      let part = body_loop-IsPart len 0 start len in (part.amount, part.fits, part.sent_is)

  -- When the loop is left without an error, the whole slice of the announced length has been sent,
  -- if every read that succeeds returns the file's bytes. At the end of the file a slice is shorter.
  pub stream_body-whole :
      (start len : ℕ)
      → (stream_body rd wr start len).outcome ≡ left_loop
      → (stream_body rd wr start len).sent ≡ take len (drop start content)
  unfolding stream_body
  stream_body-whole start len h = body_loop-whole len 0 start len h

after_read_goes_on :
    (r : Result Bytes) (w : Option ℕ) (n : ℕ) (rest : Streamed)
    → ltb (bytes_read r) n ≡ true
    → (after_read r w n rest).outcome ≢ out_of_fuel
unfolding after_read
after_read_goes_on (err e) w n rest h q = cc
after_read_goes_on (ok chunk) (some written) n rest h q = cc
after_read_goes_on (ok chunk) none n rest h q = ground (arith, h)

after_read_ends :
    (r : Result Bytes) (w : Option ℕ) (n : ℕ) (rest : Streamed)
    → rest.outcome ≢ out_of_fuel
    → (after_read r w n rest).outcome ≢ out_of_fuel
unfolding after_read
after_read_ends (err e) w n rest h q = cc
after_read_ends (ok chunk) (some written) n rest h q = cc
after_read_ends (ok chunk) none n rest h q = ground arith

body_loop_ends :
    (rd : Reader) (wr : Writes) (fuel k offset remaining : ℕ)
    → remaining ≤ fuel
    → (body_loop rd wr fuel k offset remaining).outcome ≢ out_of_fuel
unfolding body_loop
body_loop_ends rd wr zero k offset remaining le q = ground arith
body_loop_ends rd wr (suc fuel) k offset remaining le q =
    let chunk_len = min chunk_size remaining in
    let r = rd k offset chunk_len in
    elim (Bool-cases (ltb 0 remaining)) [
      | inr done ↦ absurd (apart (rw done at q))
      | inl more ↦ elim (Bool-cases (ltb (bytes_read r) chunk_len)) [
        | inl short ↦ after_read_goes_on r (wr k) chunk_len _ short (rw more at q)
        | inr full ↦
            after_read_ends r (wr k) chunk_len _
              (body_loop_ends rd wr fuel (suc k) (offset + bytes_read r) (remaining - bytes_read r)
                (decreases remaining (bytes_read r) fuel le more full))
              (rw more at q)
      ]
    ]
  where
    apart : left_loop ≢ out_of_fuel
    apart e = cc

    decreases :
        (remaining n fuel : ℕ)
        → remaining ≤ suc fuel
        → ltb 0 remaining ≡ true
        → ltb n (min chunk_size remaining) ≡ false
        → remaining - n ≤ fuel
    decreases remaining n fuel le more full = ground arith

-- The loop ends, whatever the source and the socket do.
pub stream_body_ends :
    (rd : Reader) (wr : Writes) (start len : ℕ)
    → (stream_body rd wr start len).outcome ≢ out_of_fuel
unfolding stream_body
stream_body_ends rd wr start len = body_loop_ends rd wr len 0 start len (omega arith)
