-- ===== src/Mm/Buffer/Iter.antt =====
-- The iterator of a user buffer goes through all its bytes.
use acore.Base.{
  ℕ, zero, suc, ◌+◌, ◌-◌, ◌<◌, ◌≡◌, refl, sym, ap, ◌∙◌, List, [], ◌∷◌, ◌++◌, ltb, ◌==◌,
  if◌then◌else◌, true, false, none, some, Outcome, ok, panic, ◌>>=◌, arith, get_elem?, each,
}
use acore.Mm.Buffer.{
  Slice, slice_len, byte_address, user_buffer_len, UserBufferIterator, into_iter, buffer_next,
}
use acore.Mm.Buffer.Bytes.{addresses}

-- `next` until it returns None, on fuel.
unfoldable pub iterate : ℕ → List Slice → UserBufferIterator → Outcome (List ℕ)
unfolding buffer_next
iterate zero buffers it = panic
iterate (suc left) buffers it = do
  (byte, it') ← buffer_next buffers it
  (let rest = iterate left buffers it' in
      elim byte [ none ↦ ok [] | some a ↦ (do bytes ← rest; ok (a ∷ bytes)) ])

-- No slice is empty.
abbrev pub AllFull : List Slice → Type 0
AllFull [] = Unit
AllFull (s ∷ rest) = (s.from < s.to) × AllFull rest

-- The slices from a number on.
abbrev IsFrom : List Slice → ℕ → List Slice → Type 0
IsFrom buffers id rest = (i : ℕ) → get_elem? buffers (id + i) ≡ get_elem? rest i

next_end :
    (buffers : List Slice) (id off : ℕ)
    → get_elem? buffers id ≡ none
    → buffer_next buffers (record { buffer_id = id; offset = off })
      ≡ ok (none, record { buffer_id = id; offset = off })
unfolding buffer_next
next_end buffers id off e = rw (e, buffer_next) refl

next_byte :
    (buffers : List Slice) (id off : ℕ) (s : Slice)
    → get_elem? buffers id ≡ some s
    → off < slice_len s
    → buffer_next buffers (record { buffer_id = id; offset = off })
      ≡ ok (
        some (byte_address s.ppn (s.from + off)),
        (if off + 1 == slice_len s
            then record { buffer_id = id + 1; offset = 0 }
            else record { buffer_id = id; offset = off + 1 }),
      )
unfolding buffer_next
next_byte buffers id off s e h =
    let inside : ltb off (s.to - s.from) ≡ true = ground (arith, h) in
    rw (e, inside, buffer_next) refl

iterate-end :
    (left : ℕ) (buffers : List Slice) (it it' : UserBufferIterator)
    → buffer_next buffers it ≡ ok (none, it')
    → iterate (suc left) buffers it ≡ ok []
unfolding iterate
iterate-end left buffers it it' e = rw (e, iterate) refl

iterate-step :
    (left : ℕ) (buffers : List Slice) (it it' : UserBufferIterator) (a : ℕ) (tail : List ℕ)
    → buffer_next buffers it ≡ ok (some a, it')
    → iterate left buffers it' ≡ ok tail
    → iterate (suc left) buffers it ≡ ok (a ∷ tail)
unfolding iterate
iterate-step left buffers it it' a tail e t = rw (e, t, iterate) refl

-- The bytes of a slice from a place on, and then those of the slices behind it.
iterate_slice :
    (n left k : ℕ) (buffers : List Slice) (id off at : ℕ) (s : Slice) (rest : List ℕ)
    → k ≡ suc n + left
    → at ≡ s.from + off
    → get_elem? buffers id ≡ some s
    → off + suc n ≡ slice_len s
    → iterate left buffers (record { buffer_id = id + 1; offset = 0 }) ≡ ok rest
    → iterate k buffers (record { buffer_id = id; offset = off })
      ≡ ok (each (byte_address s.ppn) at (suc n) ++ rest)
iterate_slice zero left k buffers id off at s rest f g e h t =
    let fuel : k ≡ suc left = omega (arith, f) in
    let last : (off + 1 == s.to - s.from) ≡ true = ground (arith, h) in
    rw (fuel, g)
      (iterate-step left buffers _ _ (byte_address s.ppn (s.from + off)) rest
        (next_byte buffers id off s e (omega (arith, h)) ∙ rw last refl) t)
iterate_slice (suc n) left k buffers id off at s rest f g e h t =
    let fuel : k ≡ suc (suc n + left) = omega (arith, f) in
    let more : (off + 1 == s.to - s.from) ≡ false = ground (arith, h) in
    rw (fuel, g)
      (iterate-step (suc n + left) buffers _ _ (byte_address s.ppn (s.from + off)) _
        (next_byte buffers id off s e (omega (arith, h)) ∙ rw more refl)
        (iterate_slice n left (suc n + left) buffers id (off + 1) (suc (s.from + off)) s rest refl
          (omega arith) e (omega (arith, h)) t))

iterate_from :
    (rest buffers : List Slice) (id left : ℕ)
    → AllFull rest
    → IsFrom buffers id rest
    → user_buffer_len rest < left
    → iterate left buffers (record { buffer_id = id; offset = 0 }) ≡ ok (addresses rest)
iterate_from rest buffers id zero full h l = absurd (omega (arith, l))
iterate_from [] buffers id (suc left) full h l =
    iterate-end left buffers _ _
      (next_end buffers id 0 (ap (get_elem? buffers) (omega arith) ∙ h 0))
iterate_from (s ∷ rest) buffers id (suc left) full h l =
    let n : slice_len s ≡ suc (slice_len s - 1) = omega (arith, full.0) in
    let behind =
      iterate_from rest buffers (id + 1) (suc left - slice_len s) full.1
        (λ i. ap (get_elem? buffers) (omega arith) ∙ h (suc i)) (omega (arith, l, full.0)) in
    iterate_slice (slice_len s - 1) (suc left - slice_len s) (suc left) buffers id 0 s.from s
      (addresses rest) (omega (arith, l, full.0)) (omega arith)
      (ap (get_elem? buffers) (omega arith) ∙ h 0) (omega (arith, full.0)) behind
    ∙ ap (λ m. ok (each (byte_address s.ppn) s.from m ++ addresses rest)) (sym n)

-- The iterator over slices that are not empty gives the address of each of their bytes, in order, and
-- ends after as many as the buffer is long.
pub iterate_lem :
    (buffers : List Slice)
    → AllFull buffers
    → iterate (user_buffer_len buffers + 1) buffers into_iter ≡ ok (addresses buffers)
unfolding into_iter
iterate_lem buffers full =
    iterate_from buffers buffers 0 (user_buffer_len buffers + 1) full
      (λ i. ap (get_elem? buffers) (omega arith)) (omega arith)
