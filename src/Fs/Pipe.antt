-- ===== src/Fs/Pipe.antt =====
-- os/src/fs/pipe.rs: the ring buffer of a pipe, and its two ends.
--
-- A call of `read` or `write` holds the ring buffer for one turn of its loop, and gives the
-- processor away between two turns; `read_turn` and `write_turn` are those turns.
pub mod Ring
pub mod Turns
pub mod Stream
pub mod Panics
mod Tests
use acore.Base.{
  ℕ, zero, suc, ◌+◌, ◌-◌, ◌%◌, Bool, true, false, if◌then◌else◌, ltb, ◌==◌, List, [], ◌∷◌, ◌++◌,
  get_or, set, replicate, length, Option, none, some, Outcome, ok, panic, ◌>>=◌, unwrap,
}
use acore.Base.Word.{add64, sub64}

abbrev pub ring_buffer_size : ℕ
ring_buffer_size = 32

pub data RingBufferStatus : Type 0 where
  full empty normal : RingBufferStatus

-- `write_end` is a weak pointer to the writing end, here the address of that end.
pub record PipeRingBuffer : Type 0 where
  pub arr : List ℕ
  pub head : ℕ
  pub tail : ℕ
  pub status : RingBufferStatus
  pub write_end : Option ℕ

pub new : PipeRingBuffer
new = record {
  arr = replicate ring_buffer_size 0;
  head = 0;
  tail = 0;
  status = empty;
  write_end = none;
}

pub set_write_end : PipeRingBuffer → ℕ → PipeRingBuffer
set_write_end r write_end = record r { write_end = some write_end }

-- The index is below the array's length in every valid buffer (`Ring.IsValid`).
unfoldable pub read_byte : PipeRingBuffer → ℕ × PipeRingBuffer
read_byte r =
    let c = get_or r.arr r.head 0 in
    let head = add64 r.head 1 % ring_buffer_size in
    let status = if head == r.tail then empty else normal in
    (c, record r { head = head; status = status })

abbrev pub is_empty : RingBufferStatus → Bool
is_empty empty = true
is_empty full = false
is_empty normal = false

unfoldable pub available_read : PipeRingBuffer → ℕ
available_read r =
    if is_empty r.status
    then 0
    else (if ltb r.head r.tail
        then sub64 r.tail r.head
        else sub64 (add64 r.tail ring_buffer_size) r.head)

unfoldable pub write_byte : PipeRingBuffer → ℕ → PipeRingBuffer
write_byte r byte =
    let tail = add64 r.tail 1 % ring_buffer_size in
    let status = if tail == r.head then full else normal in
    record r { arr = set r.arr r.tail byte; tail = tail; status = status }

unfoldable pub available_write : PipeRingBuffer → ℕ
unfolding available_read
available_write r = sub64 ring_buffer_size (available_read r)

-- The strong counts of the shared pointers, by address: an upgrade fails when the count is 0.
abbrev pub StrongCount : Type 0
StrongCount = ℕ → ℕ

unfoldable pub all_write_ends_closed : PipeRingBuffer → StrongCount → Outcome Bool
all_write_ends_closed r strong = do w ← unwrap r.write_end; ok (strong w == 0)

-- One end: `readable`, `writable`; the buffer is shared by both ends.
pub record Pipe : Type 0 where
  pub readable : Bool
  pub writable : Bool

abbrev pub read_end_of_buffer : Pipe
read_end_of_buffer = record { readable = true; writable = false }

abbrev pub write_end_of_buffer : Pipe
write_end_of_buffer = record { readable = false; writable = true }

-- The ends and their buffer; `addr` is where the writing end is allocated.
pub make_pipe : ℕ → Pipe × Pipe × PipeRingBuffer
unfolding new set_write_end
make_pipe addr = (read_end_of_buffer, write_end_of_buffer, set_write_end new addr)

-- A `read` under way: the bytes stored so far, the places that the buffer's iterator has left,
-- and the two local variables.
pub record Reader : Type 0 where
  pub stored : List ℕ
  pub places : ℕ
  pub buf_len : ℕ
  pub already_read : ℕ

-- A `write` under way: the bytes that the iterator has left.
pub record Writer : Type 0 where
  pub bytes : List ℕ
  pub buf_len : ℕ
  pub already_write : ℕ

-- How a turn ends: the call returns, gives the processor away, or goes on with the next turn.
pub data Turn (S : Type 0) : Type 0 where
  returned : ℕ → PipeRingBuffer → S → Turn S
  suspended : PipeRingBuffer → S → Turn S
  again : PipeRingBuffer → S → Turn S
  failed : Turn S

abbrev pub start_read : ℕ → Reader
start_read n = record { stored = []; places = n; buf_len = n; already_read = 0 }

abbrev pub start_write : List ℕ → Writer
start_write bytes = record { bytes = bytes; buf_len = length bytes; already_write = 0 }

abbrev store_byte : ℕ → Reader → ℕ → Reader
store_byte p s c = record s {
  places = p;
  stored = s.stored ++ (c ∷ []);
  already_read = add64 s.already_read 1;
}

-- `for _ in 0..available_read`. An iterator with no place left makes `unwrap` panic.
read_loop : ℕ → ℕ → PipeRingBuffer → Reader → Turn Reader
read_loop zero places r s = again r s
read_loop (suc n) zero r s = failed
read_loop (suc n) (suc p) r s =
    let (c, r') = read_byte r in
    let s' = store_byte p s c in
    let rest = read_loop n p r' s' in
    if s'.already_read == s'.buf_len then returned s'.already_read r' s' else rest

write_loop : ℕ → List ℕ → PipeRingBuffer → Writer → Turn Writer
write_loop zero bytes r s = again r s
write_loop (suc n) [] r s = failed
write_loop (suc n) (b ∷ rest_bytes) r s =
    let r' = write_byte r b in
    let s' : Writer = record s { bytes = rest_bytes; already_write = add64 s.already_write 1 } in
    let rest = write_loop n rest_bytes r' s' in
    if s'.already_write == s'.buf_len then returned s'.already_write r' s' else rest

-- One turn of `read`'s loop. (`assert!(self.readable())` stands before the loop.)
pub read_turn : StrongCount → PipeRingBuffer → Reader → Turn Reader
unfolding read_loop
read_turn strong r s =
    let n = available_read r in
    if n == 0
    then (elim (all_write_ends_closed r strong) [
      | panic ↦ failed
      | ok true ↦ returned s.already_read r s
      | ok false ↦ suspended r s
    ])
    else read_loop n s.places r s

pub write_turn : PipeRingBuffer → Writer → Turn Writer
unfolding write_loop
write_turn r s =
    let n = available_write r in if n == 0 then suspended r s else write_loop n s.bytes r s
