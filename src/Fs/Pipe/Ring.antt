-- ===== src/Fs/Pipe/Ring.antt =====
-- The ring buffer of a pipe is a queue of at most 32 bytes.
use acore.Base.{
  ℕ, zero, suc, ◌+◌, ◌%◌, ◌≤◌, ◌<◌, ◌≡◌, refl, ap, ap₂, ◌∙◌, ◌≢◌, List, [], ◌∷◌, ◌++◌, length,
  get_or, set, length-set, get_or-set_self, get_or-set_ne, arith,
}
use acore.Fs.Pipe.{
  PipeRingBuffer, RingBufferStatus, full, empty, normal, new, read_byte, write_byte, available_read,
  available_write, ring_buffer_size, make_pipe, set_write_end,
}

-- What the status says of the two indices.
abbrev pub StatusFits : RingBufferStatus → ℕ → ℕ → Type 0
StatusFits empty h t = h ≡ t
StatusFits full h t = h ≡ t
StatusFits normal h t = h ≢ t

pub record IsValid (r : PipeRingBuffer) : Type 0 where
  pub sized : length r.arr ≡ ring_buffer_size
  pub head_in : r.head < ring_buffer_size
  pub tail_in : r.tail < ring_buffer_size
  pub fits : StatusFits r.status r.head r.tail

-- The `n` bytes from index `h` on, round the end of the array.
abbrev pub window : List ℕ → ℕ → ℕ → List ℕ
window arr h zero = []
window arr h (suc n) = get_or arr h 0 ∷ window arr ((h + 1) % ring_buffer_size) n

unfoldable pub contents : PipeRingBuffer → List ℕ
contents r = window r.arr r.head (available_read r)

length-window : (arr : List ℕ) (h n : ℕ) → length (window arr h n) ≡ n
length-window arr h zero = refl
length-window arr h (suc n) = ap suc (length-window arr ((h + 1) % ring_buffer_size) n)

-- `available_read` is the number of bytes in the buffer.
pub length-contents : (r : PipeRingBuffer) → length (contents r) ≡ available_read r
unfolding contents
length-contents r = length-window r.arr r.head (available_read r)

pub make_pipe-IsValid : (addr : ℕ) → IsValid (make_pipe addr).2 × (contents (make_pipe addr).2 ≡ [])
unfolding make_pipe contents available_read new set_write_end
make_pipe-IsValid addr =
    (record { sized = refl; head_in = omega arith; tail_in = omega arith; fits = refl }, refl)

-- A write just past a window extends it.
window-set :
    (arr : List ℕ) (x n h i : ℕ)
    → length arr ≡ ring_buffer_size
    → h < ring_buffer_size
    → n < ring_buffer_size
    → i ≡ (h + n) % ring_buffer_size
    → window (set arr i x) h (suc n) ≡ window arr h n ++ (x ∷ [])
window-set arr x zero h i hs hh hn e = ground (arith, get_or-set_self arr i x 0)
window-set arr x (suc n) h i hs hh hn e =
    ap₂ ◌∷◌ (get_or-set_ne arr x 0 (λ q. omega arith)) (
      window-set arr x n ((h + 1) % ring_buffer_size) i hs (omega arith) (omega arith)
        (omega arith))

-- Read and written places make up the array.
pub available_write_sum :
    (r : PipeRingBuffer) → IsValid r → available_write r + available_read r ≡ ring_buffer_size
unfolding available_write available_read
available_write_sum r v = ground arith

available_bounds :
    (r : PipeRingBuffer)
    → IsValid r
    → (available_read r ≤ ring_buffer_size)
      × (r.tail ≡ (r.head + available_read r) % ring_buffer_size)
unfolding available_read
available_bounds r v = (ground arith, ground arith)

write_byte-IsValid : (r : PipeRingBuffer) (b : ℕ) → IsValid r → IsValid (write_byte r b)
unfolding write_byte
write_byte-IsValid r b v = record {
  sized = length-set r.arr r.tail b ∙ v.sized;
  head_in = v.head_in;
  tail_in = omega arith;
  fits = ground arith;
}

write_byte-count :
    (r : PipeRingBuffer) (b : ℕ)
    → IsValid r
    → 0 < available_write r
    → available_read (write_byte r b) ≡ suc (available_read r)
unfolding write_byte available_write available_read
write_byte-count r b v h = ground arith

read_byte-IsValid : (r : PipeRingBuffer) → IsValid r → IsValid (read_byte r).1
unfolding read_byte
read_byte-IsValid r v = record {
  sized = v.sized;
  head_in = omega arith;
  tail_in = v.tail_in;
  fits = ground arith;
}

read_byte-count :
    (r : PipeRingBuffer)
    → IsValid r
    → 0 < available_read r
    → suc (available_read (read_byte r).1) ≡ available_read r
unfolding read_byte available_read
read_byte-count r v h = ground arith

-- A byte written to a valid buffer with room goes behind the others and takes one place.
pub write_byte_lem :
    (r : PipeRingBuffer) (b : ℕ)
    → IsValid r
    → 0 < available_write r
    → IsValid (write_byte r b)
      × (contents (write_byte r b) ≡ contents r ++ (b ∷ []))
      × (available_write (write_byte r b) + 1 ≡ available_write r)
unfolding contents
write_byte_lem r b v h = (
  write_byte-IsValid r b v,
  stored,
  omega (
    arith,
    available_write_sum r v,
    available_write_sum (write_byte r b) (write_byte-IsValid r b v),
    write_byte-count r b v h,
  ),
)
  where
    stored :
        window (write_byte r b).arr (write_byte r b).head (available_read (write_byte r b))
        ≡ window r.arr r.head (available_read r) ++ (b ∷ [])
    stored = rw (write_byte-count r b v h) (
        unfold write_byte in
        window-set r.arr b (available_read r) r.head r.tail v.sized v.head_in
          (omega (arith, available_write_sum r v, h)) (available_bounds r v).1)

-- A byte read from a valid buffer that is not empty is the oldest, and the others stay in order.
pub read_byte_lem :
    (r : PipeRingBuffer)
    → IsValid r
    → 0 < available_read r
    → IsValid (read_byte r).1
      × (contents r ≡ (read_byte r).0 ∷ contents (read_byte r).1)
      × (suc (available_read (read_byte r).1) ≡ available_read r)
unfolding contents
read_byte_lem r v h = (read_byte-IsValid r v, taken, read_byte-count r v h)
  where
    taken :
        window r.arr r.head (available_read r)
        ≡ (read_byte r).0
          ∷ window (read_byte r).1.arr (read_byte r).1.head (available_read (read_byte r).1)
    taken = rw (← read_byte-count r v h) (
        unfold read_byte in
        ap (λ (k : ℕ). get_or r.arr r.head 0 ∷ window r.arr k (available_read (read_byte r).1))
          (omega arith))
