-- ===== src/Fs/Pipe/Turns.antt =====
-- What one turn of `read` and of `write` does to a valid buffer.
use acore.Base.{
  ℕ, zero, suc, ◌+◌, ◌<◌, ◌≡◌, refl, sym, ◌⊎◌, inl, inr, List, [], ◌∷◌, ◌++◌, append-nil,
  append_assoc, length, nil_of_length, false, arith, ap, Bool-cases, ◌==◌, some,
}
use acore.Base.Word.{add64, usize_mod}
use acore.Fs.Pipe.{
  PipeRingBuffer, Reader, Writer, Turn, returned, suspended, again, failed, read_byte, write_byte,
  available_read, available_write, read_loop, write_loop, store_byte, read_turn, write_turn,
  StrongCount, all_write_ends_closed,
}
use acore.Fs.Pipe.Ring.{IsValid, contents, write_byte_lem, read_byte_lem}

-- A `write` between two turns: some bytes are left, and the count is right.
pub record IsOpenWriter (s : Writer) : Type 0 where
  pub counted : s.already_write + length s.bytes ≡ s.buf_len
  pub more : 0 < length s.bytes
  pub fits : s.buf_len < usize_mod

-- A `read` between two turns: some places are left, and the count is right.
pub record IsOpenReader (s : Reader) : Type 0 where
  pub counted : s.already_read + s.places ≡ s.buf_len
  pub more : 0 < s.places
  pub fits : s.buf_len < usize_mod

-- What a turn that found room has done: it returns when all bytes are in the buffer, and goes on
-- when the buffer is full and bytes are left.
abbrev pub Wrote : PipeRingBuffer → Writer → Turn Writer → Type 0
Wrote r s (returned n r' s') =
    (n ≡ s.buf_len) × IsValid r' × (s'.bytes ≡ []) × (contents r' ≡ contents r ++ s.bytes)
Wrote r s (again r' s') =
    IsOpenWriter s'
    × IsValid r'
    × (available_write r' ≡ 0)
    × (s'.buf_len ≡ s.buf_len)
    × (moved : List ℕ) × (s.bytes ≡ moved ++ s'.bytes)
    × (contents r' ≡ contents r ++ moved)
Wrote r s (suspended r' s') = ⊥
Wrote r s failed = ⊥

Wrote-cons :
    (r r' : PipeRingBuffer) (s s' : Writer) (b : ℕ) (t : Turn Writer)
    → contents r' ≡ contents r ++ (b ∷ [])
    → s.bytes ≡ b ∷ s'.bytes
    → s'.buf_len ≡ s.buf_len
    → Wrote r' s' t
    → Wrote r s t
Wrote-cons r r' s s' b (returned n q u) c e l w =
    (omega arith, w.1, w.2, ground (arith, append_assoc (contents r) (b ∷ []) s'.bytes))
Wrote-cons r r' s s' b (again q u) c e l w = (
  w.0,
  w.1,
  w.2,
  omega arith,
  b ∷ w.4,
  ground arith,
  ground (arith, append_assoc (contents r) (b ∷ []) w.4),
)
Wrote-cons r r' s s' b (suspended q u) c e l w = w
Wrote-cons r r' s s' b failed c e l w = w

write_loop-Wrote :
    (n : ℕ) (bytes : List ℕ) (r : PipeRingBuffer) (s : Writer)
    → IsValid r
    → IsOpenWriter s
    → s.bytes ≡ bytes
    → available_write r ≡ n
    → Wrote r s (write_loop n bytes r s)
unfolding write_loop
write_loop-Wrote zero bytes r s v o e a = (o, v, a, refl, [], refl, sym (append-nil (contents r)))
write_loop-Wrote (suc n) [] r s v o e a = absurd (omega (arith, ap length e))
write_loop-Wrote (suc n) (b ∷ rest) r s v o e a =
    elim (Bool-cases (s'.already_write == s'.buf_len)) [
      | inl done ↦ rw done (
        ground arith,
        step.0,
        nil_of_length rest (ground (arith, left)),
        ground (arith, step.1, nil_of_length rest (ground (arith, left))),
      )
      | inr open_still ↦ rw open_still (
          Wrote-cons r (write_byte r b) s s' b _ step.1 e refl (
            write_loop-Wrote n rest (write_byte r b) s' step.0 (ground arith) refl
              (omega (arith, step.2))))
    ]
  where
    s' : Writer
    s' = record s { bytes = rest; already_write = add64 s.already_write 1 }

    step :
        IsValid (write_byte r b)
        × (contents (write_byte r b) ≡ contents r ++ (b ∷ []))
        × (available_write (write_byte r b) + 1 ≡ available_write r)
    step = write_byte_lem r b v (omega arith)

    left : s.already_write + suc (length rest) ≡ s.buf_len
    left = omega (arith, ap length e)

-- One turn of `write` on a valid buffer: without room it gives the processor away and nothing
-- changes; with room it never fails, and moves bytes until all are written or the buffer is full.
pub write_turn_lem :
    (r : PipeRingBuffer) (s : Writer)
    → IsValid r
    → IsOpenWriter s
    → ((available_write r ≡ 0) × (write_turn r s ≡ suspended r s))
      ⊎ ((0 < available_write r) × Wrote r s (write_turn r s))
unfolding write_turn
write_turn_lem r s v o = elim (Bool-cases (available_write r == 0)) [
  | inl e ↦ inl (ground arith, rw e)
  | inr e ↦ inr (ground arith, rw e (write_loop-Wrote _ s.bytes r s v o refl refl))
]

-- What a turn that found bytes has done: it returns when all places are filled, and goes on when
-- the buffer is empty and places are left.
abbrev pub Took : PipeRingBuffer → Reader → Turn Reader → Type 0
Took r s (returned n r' s') =
    (n ≡ s.buf_len)
    × IsValid r'
    × (moved : List ℕ) × (length moved ≡ s.places)
    × (s'.stored ≡ s.stored ++ moved)
    × (contents r ≡ moved ++ contents r')
Took r s (again r' s') =
    IsOpenReader s'
    × IsValid r'
    × (available_read r' ≡ 0)
    × (s'.buf_len ≡ s.buf_len)
    × (moved : List ℕ) × (s'.stored ≡ s.stored ++ moved)
    × (contents r ≡ moved ++ contents r')
Took r s (suspended r' s') = ⊥
Took r s failed = ⊥

Took-cons :
    (r r' : PipeRingBuffer) (s s' : Reader) (b : ℕ) (t : Turn Reader)
    → contents r ≡ b ∷ contents r'
    → s'.stored ≡ s.stored ++ (b ∷ [])
    → suc s'.places ≡ s.places
    → s'.buf_len ≡ s.buf_len
    → Took r' s' t
    → Took r s t
Took-cons r r' s s' b (returned n q u) c e p l w = (
  omega arith,
  w.1,
  b ∷ w.2,
  omega (arith, w.3),
  ground (arith, append_assoc s.stored (b ∷ []) w.2),
  ground arith,
)
Took-cons r r' s s' b (again q u) c e p l w = (
  w.0,
  w.1,
  w.2,
  omega arith,
  b ∷ w.4,
  ground (arith, append_assoc s.stored (b ∷ []) w.4),
  ground arith,
)
Took-cons r r' s s' b (suspended q u) c e p l w = w
Took-cons r r' s s' b failed c e p l w = w

read_loop-Took :
    (n p : ℕ) (r : PipeRingBuffer) (s : Reader)
    → IsValid r
    → IsOpenReader s
    → s.places ≡ p
    → available_read r ≡ n
    → Took r s (read_loop n p r s)
unfolding read_loop
read_loop-Took zero p r s v o e a = (o, v, a, refl, [], sym (append-nil s.stored), refl)
read_loop-Took (suc n) zero r s v o e a = absurd (omega arith)
read_loop-Took (suc n) (suc p) r s v o e a = elim (Bool-cases (s'.already_read == s'.buf_len)) [
  | inl done ↦
      rw done (ground arith, step.0, (read_byte r).0 ∷ [], ground (arith, o.counted), refl, step.1)
  | inr open_still ↦ rw open_still (
      Took-cons r (read_byte r).1 s s' (read_byte r).0 _ step.1 refl (sym e) refl
        (read_loop-Took n p (read_byte r).1 s' step.0 (ground arith) refl (omega (arith, step.2))))
]
  where
    s' : Reader
    s' = store_byte p s (read_byte r).0

    step :
        IsValid (read_byte r).1
        × (contents r ≡ (read_byte r).0 ∷ contents (read_byte r).1)
        × (suc (available_read (read_byte r).1) ≡ available_read r)
    step = read_byte_lem r v (omega arith)

pub read_turn-Took :
    (strong : StrongCount) (r : PipeRingBuffer) (s : Reader)
    → IsValid r
    → IsOpenReader s
    → 0 < available_read r
    → Took r s (read_turn strong r s)
unfolding read_turn
read_turn-Took strong r s v o h =
    let busy : (available_read r == 0) ≡ false = ground arith in
    rw busy (read_loop-Took _ s.places r s v o refl refl)

-- One turn of `read` on a valid buffer with a writing end at `w`. Without bytes it returns what
-- it has read so far when that end is closed, and gives the processor away when it is open; with
-- bytes it never fails, and moves the oldest until all places are filled or none is left.
pub read_turn_lem :
    (strong : StrongCount) (r : PipeRingBuffer) (s : Reader) (w : ℕ)
    → IsValid r
    → IsOpenReader s
    → r.write_end ≡ some w
    → ((available_read r ≡ 0)
        × (strong w ≡ 0)
        × (read_turn strong r s ≡ returned s.already_read r s))
      ⊎ ((available_read r ≡ 0) × (0 < strong w) × (read_turn strong r s ≡ suspended r s))
      ⊎ ((0 < available_read r) × Took r s (read_turn strong r s))
unfolding read_turn all_write_ends_closed
read_turn_lem strong r s w v o e = elim (Bool-cases (available_read r == 0)) [
  | inl q ↦ elim (Bool-cases (strong w == 0)) [
    | inl c ↦ inl (ground arith, ground arith, ground arith)
    | inr c ↦ inr (inl (ground arith, ground arith, ground arith))
  ]
  | inr q ↦ inr (inr (ground arith, read_turn-Took strong r s v o (ground arith)))
]
