-- ===== src/Memory/Fifo/Resize.antt =====
-- What `FifoBuffer::SetCapacity` keeps.
use nbsdk.Prelude.{
  ℕ, ◌+◌, ◌-◌, ◌%◌, ◌^◌, ◌≤◌, ◌<◌, ◌≡◌, ◌⊎◌, inl, inr, refl, some, false, true, arith, ltb, ◌==◌,
  length, get_or, Bool-cases, ltb→lt, list_ext, length-tabulate, get_or-tabulate,
}
use nbsdk.Memory.Copy.{sub_size}
use nbsdk.Memory.Fifo.{FifoBuffer, allocate, contents, set_capacity, resized}
use nbsdk.Memory.Fifo.Valid.{IsValid, wrap, length-contents}
use nbsdk.Memory.Fifo.Around.{unrolled, unroll_copies, length-unrolled, get_or-unrolled}

-- The object when its bytes have moved to a fresh array.
moved : (ℕ → ℕ) → FifoBuffer → ℕ → FifoBuffer
moved memory f size = record f {
  buffer = unrolled f.buffer f.buffer_length f.read_position f.data_length (allocate memory size);
  read_position = 0;
  buffer_length = size;
}

module _ (memory : ℕ → ℕ) (f : FifoBuffer) (v : IsValid f) (size : ℕ)
    (fits : f.data_length ≤ size) where
  room : f.data_length ≤ length (allocate memory size)
  room = omega (arith, length-tabulate size memory)

  contents-moved : contents (moved memory f size) ≡ contents f
  unfolding moved
  contents-moved =
      list_ext 0 (contents (moved memory f size)) (contents f)
        (omega (arith, length-contents (moved memory f size), length-contents f))
        (λ k h. ground (
          arith,
          length-contents (moved memory f size),
          get_or-tabulate f.data_length
              (λ j. get_or (moved memory f size).buffer ((0 + j) % size) 0) k 0,
          get_or-tabulate f.data_length
              (λ j. get_or f.buffer ((f.read_position + j) % f.buffer_length) 0) k 0,
          wrap (0 + k) size,
          get_or-unrolled f.buffer f.buffer_length f.read_position f.data_length v.storage
              v.position_in v.data_in (allocate memory size) room k,
        ))

  moved-IsValid : size ≤ 2 ^ 63 → IsValid (moved memory f size)
  unfolding moved
  moved-IsValid h = record {
    storage = omega (
      arith,
      length-tabulate size memory,
      length-unrolled f.buffer f.buffer_length f.read_position f.data_length v.storage v.position_in
          v.data_in (allocate memory size) room,
    );
    small = h;
    data_in = fits;
    position_in = omega arith;
  }

  resized_moves : resized memory f size ≡ some (moved memory f size)
  unfolding resized moved
  resized_moves = rw no_wrap (
      unroll_copies f.buffer f.buffer_length f.read_position f.data_length v.storage v.position_in
        v.data_in (allocate memory size) room
        (λ all. some (record f { buffer = all; read_position = 0; buffer_length = size })))
    where
      no_wrap : sub_size f.buffer_length f.read_position ≡ f.buffer_length - f.read_position
      no_wrap = omega (arith, v.small, v.position_in)

-- `SetCapacity` refuses, and changes nothing, exactly if the bytes held do not fit. Otherwise the
-- capacity is `size`, the bytes held are the same, whatever the fresh array was filled with, and the
-- buffer stays valid. No copy goes outside an array.
pub set_capacity_lem :
    (memory : ℕ → ℕ) (f : FifoBuffer) (size : ℕ)
    → IsValid f
    → size ≤ 2 ^ 63
    → ((size < f.data_length) × (set_capacity memory f size ≡ some (false, f)))
      ⊎ ((f.data_length ≤ size)
          × (f' : FifoBuffer) × (set_capacity memory f size ≡ some (true, f'))
          × (contents f' ≡ contents f)
          × (f'.buffer_length ≡ size)
          × IsValid f')
unfolding set_capacity moved
set_capacity_lem memory f size v small = elim (Bool-cases (ltb size f.data_length)) [
  | inl p ↦ inl (ltb→lt size f.data_length p, rw p)
  | inr p ↦
      let fits : f.data_length ≤ size = ground arith in
      elim (Bool-cases (size == f.buffer_length)) [
        | inl same ↦ inr (fits, f, rw (p, same), refl, ground arith, v)
        | inr other ↦ inr (
          fits,
          moved memory f size,
          rw (p, other, resized_moves memory f v size fits),
          contents-moved memory f v size fits,
          refl,
          moved-IsValid memory f v size fits small,
        )
      ]
]
