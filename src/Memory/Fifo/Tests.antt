-- ===== src/Memory/Fifo/Tests.antt =====
-- `FifoBuffer` at work on small buffers, one of which goes round the end of its array.
use nbsdk.Prelude.{
  ℕ, ◌≤◌, ◌<◌, ◌≡◌, ◌⊎◌, refl, List, [], ◌∷◌, ◌++◌, some, true, false, arith, length, take, drop,
}
use nbsdk.Memory.Copy.{memcpy, copied}
use nbsdk.Memory.Queue.{Call, put, get, resize, Reply, wrote, got, sized}
use nbsdk.Memory.Queue
use nbsdk.Memory.Fifo.{
  FifoBuffer, failed, done, create, contents, read, read_offset_locked, copy_out, after_read, write,
  write_offset_locked, copy_in, after_write, set_capacity, resized,
}
use nbsdk.Memory.Fifo.Valid.{IsValid, create-IsValid}
use nbsdk.Memory.Fifo.Read.{read_lem, read_offset_locked_lem}
use nbsdk.Memory.Fifo.Write.{write_lem}
use nbsdk.Memory.Fifo.Resize.{set_capacity_lem}
use nbsdk.Memory.Fifo.Refine.{run, step, view, run_refines}
use nbsdk.Memory.Fifo.Order.{served, run_order}

abbrev memory : ℕ → ℕ
memory i = 99

-- 8, 9 and 10, round the end of the array.
abbrev wrapped : FifoBuffer
wrapped = record {
  buffer = 9 ∷ 10 ∷ 6 ∷ 8 ∷ [];
  buffer_length = 4;
  data_length = 3;
  read_position = 3;
}

wrapped-IsValid : IsValid wrapped
wrapped-IsValid = omega arith

abbrev calls : List Call
calls = put (1 ∷ 2 ∷ []) ∷ resize 2 ∷ get 2 ∷ resize 6 ∷ get 3 ∷ []

contents-wrapped : contents wrapped ≡ 8 ∷ 9 ∷ 10 ∷ []
contents-wrapped = refl

run-wrapped :
    run memory wrapped calls
    ≡ some (
      wrote 1 ∷ sized false ∷ got (8 ∷ 9 ∷ []) ∷ sized true ∷ got (10 ∷ 1 ∷ []) ∷ [],
      record {
        buffer = 10 ∷ 1 ∷ 99 ∷ 99 ∷ 99 ∷ 99 ∷ [];
        buffer_length = 6;
        data_length = 0;
        read_position = 2;
      },
    )
unfolding run step read read_offset_locked copy_out after_read write write_offset_locked copy_in
    after_write set_capacity resized memcpy copied
run-wrapped = refl

create-IsValid_run : IsValid (create memory 4)
create-IsValid_run = create-IsValid memory 4 (omega arith)

write_lem_example :
    (f' : FifoBuffer) × (write wrapped (1 ∷ 2 ∷ []) 2 ≡ some (1, f'))
    × (contents f' ≡ 8 ∷ 9 ∷ 10 ∷ 1 ∷ [])
    × (f'.buffer_length ≡ 4)
    × IsValid f'
write_lem_example = write_lem wrapped (1 ∷ 2 ∷ []) 2 wrapped-IsValid (omega arith)

read_lem_example :
    (out' : List ℕ) × (f' : FifoBuffer) × (read wrapped (0 ∷ 0 ∷ []) 2 ≡ some (2, out', f'))
    × (8 ∷ 9 ∷ 10 ∷ [] ≡ take 2 out' ++ contents f')
    × (drop 2 out' ≡ [])
    × (length out' ≡ 2)
    × (f'.buffer_length ≡ 4)
    × IsValid f'
read_lem_example = read_lem wrapped (0 ∷ 0 ∷ []) 2 wrapped-IsValid (omega arith)

read_offset_locked_lem_example :
    ((3 ≤ 1) × (read_offset_locked wrapped (0 ∷ 0 ∷ []) 2 1 ≡ some failed))
    ⊎ ((1 < 3)
        × (out' : List ℕ) × (read_offset_locked wrapped (0 ∷ 0 ∷ []) 2 1 ≡ some (done (2, out')))
        × (take 2 out' ≡ 9 ∷ 10 ∷ [])
        × (drop 2 out' ≡ [])
        × (length out' ≡ 2))
read_offset_locked_lem_example =
    read_offset_locked_lem wrapped (0 ∷ 0 ∷ []) 2 1 wrapped-IsValid (omega arith)

set_capacity_lem_example :
    ((7 < 3) × (set_capacity memory wrapped 7 ≡ some (false, wrapped)))
    ⊎ ((3 ≤ 7)
        × (f' : FifoBuffer) × (set_capacity memory wrapped 7 ≡ some (true, f'))
        × (contents f' ≡ 8 ∷ 9 ∷ 10 ∷ [])
        × (f'.buffer_length ≡ 7)
        × IsValid f')
set_capacity_lem_example = set_capacity_lem memory wrapped 7 wrapped-IsValid (omega arith)

run_refines_example :
    (f' : FifoBuffer) × (run memory wrapped calls ≡ some ((Queue.run (view wrapped) calls).0, f'))
    × (view f' ≡ (Queue.run (view wrapped) calls).1)
    × IsValid f'
run_refines_example = run_refines memory wrapped calls wrapped-IsValid (omega arith)

run_order_example : served (wrote 1 ∷ got (8 ∷ 9 ∷ []) ∷ []) ++ 10 ∷ 1 ∷ [] ≡ 8 ∷ 9 ∷ 10 ∷ 1 ∷ []
unfolding run step read read_offset_locked copy_out after_read write write_offset_locked copy_in
    after_write memcpy copied
run_order_example =
    run_order memory wrapped
      (record {
        buffer = 9 ∷ 10 ∷ 1 ∷ 8 ∷ [];
        buffer_length = 4;
        data_length = 2;
        read_position = 1;
      })
      (put (1 ∷ 2 ∷ []) ∷ get 2 ∷ []) (wrote 1 ∷ got (8 ∷ 9 ∷ []) ∷ []) wrapped-IsValid
      (omega arith) refl
