-- ===== src/Fs/Pipe/Stream.antt =====
-- Any number of calls of `read` and `write` take their turns on one pipe in any order: what is
-- read is what was written, in the same order.
use acore.Base.{
  ℕ, zero, suc, ◌-◌, ◌≤◌, ◌≡◌, refl, inl, inr, List, [], ◌∷◌, ◌++◌, append-nil, append_assoc,
  length, length-append, take, drop, arith, ap, Bool-cases, ◌==◌, Option, some, none,
}
use acore.Fs.Pipe.{
  PipeRingBuffer, Reader, Writer, Turn, returned, suspended, again, failed, available_read,
  read_turn, write_turn, StrongCount, all_write_ends_closed, make_pipe,
}
use acore.Fs.Pipe.Ring.{IsValid, contents, length-contents, available_write_sum, make_pipe-IsValid}
use acore.Fs.Pipe.Turns.{IsOpenWriter, IsOpenReader, Wrote, Took, write_turn_lem, read_turn-Took}

-- The buffer and the caller's state after a turn; none after a panic.
unfoldable pub after : {S : Type 0} → Turn S → Option (PipeRingBuffer × S)
after (returned n r s) = some (r, s)
after (suspended r s) = some (r, s)
after (again r s) = some (r, s)
after failed = none

-- The bytes that a turn has taken from the writer, and those that it has given to the reader.
abbrev pub written : Writer → Writer → List ℕ
written w w' = take (length w.bytes - length w'.bytes) w.bytes

abbrev pub fetched : Reader → Reader → List ℕ
fetched s s' = drop (length s.stored) s'.stored

-- The pipe, and all bytes written to it and read from it since it was made.
pub record Sys : Type 0 where
  pub ring : PipeRingBuffer
  pub sent : List ℕ
  pub got : List ℕ

-- One turn of some call under way. The strong counts are those at the time of the turn.
pub data Step : Sys → Sys → Type 0 where
  writes :
      (s : Sys) (w w' : Writer) (r : PipeRingBuffer)
      → IsOpenWriter w
      → after (write_turn s.ring w) ≡ some (r, w')
      → Step s (record s { ring = r; sent = s.sent ++ written w w' })
  reads :
      (s : Sys) (strong : StrongCount) (c c' : Reader) (r : PipeRingBuffer)
      → IsOpenReader c
      → after (read_turn strong s.ring c) ≡ some (r, c')
      → Step s (record s { ring = r; got = s.got ++ fetched c c' })

pub data Reach (s : Sys) : Sys → Type 0 where
  here : Reach s s
  next : {t u : Sys} → Reach s t → Step t u → Reach s u

abbrev pub made : ℕ → Sys
made addr = record { ring = (make_pipe addr).2; sent = []; got = [] }

take-append_left : (xs ys : List ℕ) (n : ℕ) → n ≡ length xs → take n (xs ++ ys) ≡ xs
take-append_left [] ys zero e = refl
take-append_left [] ys (suc n) e = absurd (omega arith)
take-append_left (x ∷ xs) ys zero e = absurd (omega arith)
take-append_left (x ∷ xs) ys (suc n) e = ap (◌∷◌ x) (take-append_left xs ys n (omega arith))

drop-append_left : (xs ys : List ℕ) → drop (length xs) (xs ++ ys) ≡ ys
drop-append_left [] ys = refl
drop-append_left (x ∷ xs) ys = drop-append_left xs ys

written-append : (w u : Writer) (moved : List ℕ) → w.bytes ≡ moved ++ u.bytes → written w u ≡ moved
written-append w u moved e =
    rw e (take-append_left moved u.bytes _ (omega (arith, length-append moved u.bytes)))

fetched-append :
    (c d : Reader) (moved : List ℕ) → d.stored ≡ c.stored ++ moved → fetched c d ≡ moved
fetched-append c d moved e = rw e (drop-append_left c.stored moved)

Wrote-after :
    (r q : PipeRingBuffer) (w u : Writer) (t : Turn Writer)
    → Wrote r w t
    → after t ≡ some (q, u)
    → IsValid q × (contents q ≡ contents r ++ written w u)
unfolding after
Wrote-after r q w u (returned n r' w') h e =
    (ground arith, ground (arith, written-append w w' w.bytes (ground (arith, append-nil w.bytes))))
Wrote-after r q w u (again r' w') h e = (ground arith, ground (arith, written-append w w' h.4 h.5))
Wrote-after r q w u (suspended r' w') h e = absurd h
Wrote-after r q w u failed h e = absurd h

Took-after :
    (r q : PipeRingBuffer) (c d : Reader) (t : Turn Reader)
    → Took r c t
    → after t ≡ some (q, d)
    → IsValid q × (contents r ≡ fetched c d ++ contents q)
unfolding after
Took-after r q c d (returned n r' c') h e =
    (ground arith, ground (arith, fetched-append c c' h.2 h.4))
Took-after r q c d (again r' c') h e = (ground arith, ground (arith, fetched-append c c' h.4 h.5))
Took-after r q c d (suspended r' c') h e = absurd h
Took-after r q c d failed h e = absurd h

-- The pipe loses no byte and makes none up.
pub record IsFifo (s : Sys) : Type 0 where
  pub valid : IsValid s.ring
  pub order : s.got ++ contents s.ring ≡ s.sent

suspended-after :
    (r q : PipeRingBuffer) (w u : Writer) → after (suspended r w) ≡ some (q, u) → (q ≡ r) × (u ≡ w)
unfolding after
suspended-after r q w u e = (ground arith, ground arith)

write_turn-after :
    (r q : PipeRingBuffer) (w u : Writer)
    → IsValid r
    → IsOpenWriter w
    → after (write_turn r w) ≡ some (q, u)
    → IsValid q × (contents q ≡ contents r ++ written w u)
write_turn-after r q w u v o e = elim (write_turn_lem r w v o) [
  | inl h ↦
      let same = suspended-after r q w u (rw h.1 at e) in
      (ground arith, ground (arith, written-append w u [] (ground arith), append-nil (contents r)))
  | inr h ↦ Wrote-after r q w u (write_turn r w) h.1 e
]

read_turn-idle :
    (strong : StrongCount) (r q : PipeRingBuffer) (c d : Reader)
    → available_read r ≡ 0
    → after (read_turn strong r c) ≡ some (q, d)
    → (q ≡ r) × (d ≡ c)
unfolding read_turn after all_write_ends_closed
read_turn-idle strong r q c d h e = (ground arith, ground arith)

read_turn-after :
    (strong : StrongCount) (r q : PipeRingBuffer) (c d : Reader)
    → IsValid r
    → IsOpenReader c
    → after (read_turn strong r c) ≡ some (q, d)
    → IsValid q × (contents r ≡ fetched c d ++ contents q)
read_turn-after strong r q c d v o e = elim (Bool-cases (available_read r == 0)) [
  | inl h ↦
      let same = read_turn-idle strong r q c d (ground arith) e in
      (ground arith, ground (arith, fetched-append c d [] (ground (arith, append-nil c.stored))))
  | inr h ↦
      Took-after r q c d (read_turn strong r c) (read_turn-Took strong r c v o (ground arith)) e
]

Step-IsFifo : {s t : Sys} → Step s t → IsFifo s → IsFifo t
Step-IsFifo (writes s w w' r o e) f =
    let done = write_turn-after s.ring r w w' f.valid o e in
    record {
      valid = done.0;
      order = ground (arith, append_assoc s.got (contents s.ring) (written w w'));
    }
Step-IsFifo (reads s strong c c' r o e) f =
    let done = read_turn-after strong s.ring r c c' f.valid o e in
    record {
      valid = done.0;
      order = ground (arith, append_assoc s.got (fetched c c') (contents r));
    }

Reach-IsFifo : {s t : Sys} → Reach s t → IsFifo s → IsFifo t
Reach-IsFifo here f = f
Reach-IsFifo (next p st) f = Step-IsFifo st (Reach-IsFifo p f)

-- However the turns of readers and writers follow one another on a new pipe, the bytes read so far and then the
-- bytes in the buffer are the bytes written so far, in order, and at most 32 wait in the buffer.
pub pipe_fifo :
    (addr : ℕ) (s : Sys)
    → Reach (made addr) s
    → (s.got ++ contents s.ring ≡ s.sent) × (length (contents s.ring) ≤ 32)
pipe_fifo addr s p =
    let f =
      Reach-IsFifo p
        (record { valid = (make_pipe-IsValid addr).0; order = (make_pipe-IsValid addr).1 }) in
    (f.order, omega (arith, length-contents s.ring, available_write_sum s.ring f.valid))
