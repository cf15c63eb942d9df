-- ===== src/Fs/Pipe/Tests.antt =====
-- Runs of a pipe, and its theorems at concrete inputs.
use acore.Base.{ℕ, ◌<◌, ◌≤◌, ◌≡◌, refl, ◌⊎◌, [], ◌∷◌, ◌++◌, length, some, arith, replicate}
use acore.Fs.Pipe.{
  PipeRingBuffer, Writer, normal, make_pipe, write_byte, available_write, available_read,
  write_turn, read_turn, start_write, start_read, failed, returned, suspended, new,
}
use acore.Fs.Pipe.Ring.{IsValid, contents}
use acore.Fs.Pipe.Turns.{IsOpenWriter, Wrote, Took, write_turn_lem, read_turn_lem}
use acore.Fs.Pipe.Stream.{Sys, writes, Reach, here, next, made, pipe_fifo, after}
use acore.Fs.Pipe.Panics.{empty_transfer_panics}

-- Two bytes, the second behind the end of the array.
abbrev wrapped : PipeRingBuffer
wrapped = record {
  arr = 9 ∷ (replicate 30 0 ++ (8 ∷ []));
  head = 31;
  tail = 1;
  status = normal;
  write_end = some 5;
}

wrapped-IsValid : IsValid wrapped
wrapped-IsValid = record {
  sized = refl;
  head_in = omega arith;
  tail_in = omega arith;
  fits = omega arith;
}

contents-wrapped : contents wrapped ≡ 8 ∷ 9 ∷ []
unfolding contents available_read
contents-wrapped = refl

abbrev sent_two : Sys
sent_two = record { ring = write_byte (write_byte (made 5).ring 7) 8; sent = 7 ∷ 8 ∷ []; got = [] }

two-Reach : Reach (made 5) sent_two
unfolding write_turn write_byte available_write after new make_pipe
two-Reach = next here (
    writes (made 5) (start_write (7 ∷ 8 ∷ [])) _ _
      (record { counted = refl; more = omega arith; fits = omega arith }) refl)

pipe_fifo_example :
    (sent_two.got ++ contents sent_two.ring ≡ 7 ∷ 8 ∷ []) × (length (contents sent_two.ring) ≤ 32)
pipe_fifo_example = pipe_fifo 5 sent_two two-Reach

abbrev three : Writer
three = start_write (1 ∷ 2 ∷ 3 ∷ [])

three-IsOpenWriter : IsOpenWriter three
three-IsOpenWriter = record { counted = refl; more = omega arith; fits = omega arith }

write_turn_lem_example :
    ((available_write wrapped ≡ 0) × (write_turn wrapped three ≡ suspended wrapped three))
    ⊎ ((0 < available_write wrapped) × Wrote wrapped three (write_turn wrapped three))
write_turn_lem_example = write_turn_lem wrapped three wrapped-IsValid three-IsOpenWriter

read_turn_lem_example :
    ((available_read wrapped ≡ 0)
      × (◌≡◌ {A = ℕ} 0 0)
      × (read_turn (λ _. 0) wrapped (start_read 1) ≡ returned 0 wrapped (start_read 1)))
    ⊎ ((available_read wrapped ≡ 0)
        × (0 < 0)
        × (read_turn (λ _. 0) wrapped (start_read 1) ≡ suspended wrapped (start_read 1)))
    ⊎ ((0 < available_read wrapped)
        × Took wrapped (start_read 1) (read_turn (λ _. 0) wrapped (start_read 1)))
read_turn_lem_example =
    read_turn_lem (λ _. 0) wrapped (start_read 1) 5 wrapped-IsValid
      (record { counted = refl; more = omega arith; fits = omega arith }) refl

empty_transfer_panics_example :
    (0 < available_write wrapped → write_turn wrapped (start_write []) ≡ failed)
    × (0 < available_read wrapped → read_turn (λ _. 1) wrapped (start_read 0) ≡ failed)
empty_transfer_panics_example = empty_transfer_panics (λ _. 1) wrapped
