-- ===== src/Fs/Pipe/Panics.antt =====
-- When a call moves everything in one turn, and when it panics.
use acore.Base.{
  ℕ, zero, suc, ◌≤◌, ◌<◌, ◌≡◌, refl, inl, inr, false, ◌==◌, [], ◌++◌, length, length-append, arith,
  ap,
}
use acore.Fs.Pipe.{
  PipeRingBuffer, Reader, Writer, Turn, returned, suspended, again, failed, start_read, start_write,
  read_loop, write_loop, available_read, available_write, read_turn, write_turn, StrongCount,
}
use acore.Fs.Pipe.Ring.{IsValid, contents, length-contents, available_write_sum}
use acore.Fs.Pipe.Turns.{IsOpenWriter, Wrote, write_turn_lem}

-- What `returned` tells of a turn.
abbrev pub Delivers : PipeRingBuffer → Writer → Turn Writer → Type 0
Delivers r s t =
    (q : PipeRingBuffer) × (u : Writer) × (t ≡ returned s.buf_len q u)
    × IsValid q
    × (contents q ≡ contents r ++ s.bytes)

Wrote-Delivers :
    (r : PipeRingBuffer) (s : Writer) (t : Turn Writer)
    → IsValid r
    → length s.bytes ≤ available_write r
    → Wrote r s t
    → Delivers r s t
Wrote-Delivers r s (returned n q u) v h w = (q, u, ap (λ (k : ℕ). returned k q u) w.0, w.1, w.3)
Wrote-Delivers r s (again q u) v h w = absurd (
    omega (
      arith,
      w.0.more,
      ap length w.5,
      ap length w.6,
      length-append w.4 u.bytes,
      length-append (contents r) w.4,
      length-contents r,
      length-contents q,
      available_write_sum r v,
      available_write_sum q w.1,
    ))
Wrote-Delivers r s (suspended q u) v h w = absurd w
Wrote-Delivers r s failed v h w = absurd w

-- A `write` that has no more bytes left than the buffer has room returns in this turn, with its
-- length, and the bytes are in the buffer behind those of before.
pub write_turn-fits :
    (r : PipeRingBuffer) (s : Writer)
    → IsValid r
    → IsOpenWriter s
    → length s.bytes ≤ available_write r
    → Delivers r s (write_turn r s)
write_turn-fits r s v o h = elim (write_turn_lem r s v o) [
  | inl full ↦ absurd (omega (arith, o.more))
  | inr moved ↦ Wrote-Delivers r s (write_turn r s) v h moved.1
]

write_loop-exhausted :
    (n : ℕ) (r : PipeRingBuffer) (s : Writer) → 0 < n → write_loop n [] r s ≡ failed
unfolding write_loop
write_loop-exhausted zero r s h = absurd (omega arith)
write_loop-exhausted (suc n) r s h = refl

read_loop-exhausted : (n : ℕ) (r : PipeRingBuffer) (s : Reader) → 0 < n → read_loop n 0 r s ≡ failed
unfolding read_loop
read_loop-exhausted zero r s h = absurd (omega arith)
read_loop-exhausted (suc n) r s h = refl

-- A transfer of no bytes panics as soon as the buffer has room to write, or bytes to read: the
-- loop asks the exhausted iterator for a place before it compares the counts.
pub empty_transfer_panics :
    (strong : StrongCount) (r : PipeRingBuffer)
    → (0 < available_write r → write_turn r (start_write []) ≡ failed)
      × (0 < available_read r → read_turn strong r (start_read 0) ≡ failed)
unfolding write_turn read_turn
empty_transfer_panics strong r = (
  λ h.
      let busy : (available_write r == 0) ≡ false = ground arith in
      rw busy (write_loop-exhausted (available_write r) r (start_write []) h),
  λ h.
      let busy : (available_read r == 0) ≡ false = ground arith in
      rw busy (read_loop-exhausted (available_read r) r (start_read 0) h),
)
