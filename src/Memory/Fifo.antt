-- ===== src/Memory/Fifo.antt =====
-- memery/fifo_buffer.cc and memery/include/fifo_buffer.h: the functions of `FifoBuffer`. One that
-- updates the object returns the new object beside its result; the lock makes each call one step.
-- `none` stands for undefined behaviour: a copy outside an array, or a division by zero.
pub mod Valid
pub mod Around
pub mod Read
pub mod Write
pub mod Resize
pub mod Refine
pub mod Order
pub mod Threads
mod Tests
use nbsdk.Prelude.{
  ℕ, ◌+◌, ◌-◌, min, Bool, true, false, Option, some, List, ltb, leb, ◌==◌, if◌then◌else◌, ◌>>=◌,
  tabulate, get_or, ◌%◌,
}
use nbsdk.Memory.Copy.{add_size, sub_size, rem?, memcpy}

-- `char` is moved, never computed with, so a byte is any number.
pub record FifoBuffer : Type 0 where
  pub buffer : List ℕ
  pub buffer_length : ℕ
  pub data_length : ℕ
  pub read_position : ℕ

-- The `int` status of the two `Locked` functions: -1, or 0 with the count left in the out parameter.
pub data Outcome {ℓ} (A : Type ℓ) : Type ℓ where
  failed : Outcome A
  done : A → Outcome A

-- `new char[n]`: what the memory holds at first is arbitrary.
abbrev pub allocate : (ℕ → ℕ) → ℕ → List ℕ
allocate memory n = tabulate n memory

pub create : (ℕ → ℕ) → ℕ → FifoBuffer
create memory length = record {
  buffer = allocate memory length;
  buffer_length = length;
  data_length = 0;
  read_position = 0;
}

pub get_data_len : FifoBuffer → ℕ
get_data_len f = f.data_length

resized : (ℕ → ℕ) → FifoBuffer → ℕ → Option FifoBuffer
resized memory f size = do
  let copy = f.data_length
  let tail_copy = min copy (sub_size f.buffer_length f.read_position)
  fresh ← memcpy (allocate memory size) 0 f.buffer f.read_position tail_copy
  moved ← memcpy fresh tail_copy f.buffer 0 (copy - tail_copy)
  some (record f { buffer = moved; read_position = 0; buffer_length = size })

pub set_capacity : (ℕ → ℕ) → FifoBuffer → ℕ → Option (Bool × FifoBuffer)
set_capacity memory f size =
    if ltb size f.data_length
    then some (false, f)
    else if size == f.buffer_length
    then some (true, f)
    else (resized memory f size >>= λ g. some (true, g))

-- The caller's array comes back with what was copied into it.
copy_out : FifoBuffer → List ℕ → ℕ → ℕ → Option (ℕ × List ℕ)
copy_out f out bytes offset = do
  let available = f.data_length - offset
  position ← rem? (add_size f.read_position offset) f.buffer_length
  let copy = min bytes available
  let tail_copy = min copy (f.buffer_length - position)
  tail ← memcpy out 0 f.buffer position tail_copy
  all ← memcpy tail tail_copy f.buffer 0 (copy - tail_copy)
  some (copy, all)

pub read_offset_locked : FifoBuffer → List ℕ → ℕ → ℕ → Option (Outcome (ℕ × List ℕ))
read_offset_locked f out bytes offset =
    if leb f.data_length offset
    then some failed
    else (copy_out f out bytes offset >>= λ r. some (done r))

copy_in : FifoBuffer → List ℕ → ℕ → ℕ → Option (ℕ × List ℕ)
copy_in f src bytes offset = do
  let available = sub_size (sub_size f.buffer_length f.data_length) offset
  position ← rem? (add_size (add_size f.read_position f.data_length) offset) f.buffer_length
  let copy = min bytes available
  let tail_copy = min copy (f.buffer_length - position)
  tail ← memcpy f.buffer position src 0 tail_copy
  all ← memcpy tail 0 src tail_copy (copy - tail_copy)
  some (copy, all)

pub write_offset_locked : FifoBuffer → List ℕ → ℕ → ℕ → Option (Outcome (ℕ × List ℕ))
write_offset_locked f src bytes offset =
    if leb f.buffer_length (add_size f.data_length offset)
    then some failed
    else (copy_in f src bytes offset >>= λ r. some (done r))

after_read : FifoBuffer → List ℕ → Outcome (ℕ × List ℕ) → Option (ℕ × List ℕ × FifoBuffer)
after_read f out failed = some (0, out, f)
after_read f out (done (copy, out')) = do
  position ← rem? (add_size f.read_position copy) f.buffer_length
  some (copy, out', record f { read_position = position; data_length = f.data_length - copy })

-- The count, the caller's array and the object.
pub read : FifoBuffer → List ℕ → ℕ → Option (ℕ × List ℕ × FifoBuffer)
read f out bytes = read_offset_locked f out bytes 0 >>= after_read f out

after_write : FifoBuffer → Outcome (ℕ × List ℕ) → Option (ℕ × FifoBuffer)
after_write f failed = some (0, f)
after_write f (done (copy, buffer)) =
    some (copy, record f { buffer = buffer; data_length = add_size f.data_length copy })

pub write : FifoBuffer → List ℕ → ℕ → Option (ℕ × FifoBuffer)
write f src bytes = write_offset_locked f src bytes 0 >>= after_write f

-- The bytes that are held, oldest first: `data_length` of them from `read_position` on, going round
-- at `buffer_length`.
abbrev pub contents : FifoBuffer → List ℕ
contents f =
    tabulate f.data_length (λ k. get_or f.buffer ((f.read_position + k) % f.buffer_length) 0)
