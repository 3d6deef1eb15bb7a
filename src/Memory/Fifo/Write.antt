-- ===== src/Memory/Fifo/Write.antt =====
-- What `FifoBuffer::Write` stores.
use nbsdk.Prelude.{
  ℕ, ◌+◌, ◌-◌, ◌%◌, ◌≤◌, ◌<◌, min, max, ◌≡◌, refl, List, ◌++◌, some, false, true, arith, ltb, leb,
  if◌then◌else◌, length, take, get_or, inl, inr, Bool-cases, ltb→lt, append-nil, list_ext,
  length-append, length-take, get_or-append, get_or-take, get_or-tabulate,
}
use nbsdk.Memory.Copy.{add_size, sub_size}
use nbsdk.Memory.Fifo.{FifoBuffer, contents, write, write_offset_locked, copy_in, after_write}
use nbsdk.Memory.Fifo.Valid.{IsValid, wrap, rem?-pos, length-contents}
use nbsdk.Memory.Fifo.Around.{rolled, roll_copies, length-rolled, get_or-rolled}

-- The free space.
abbrev pub free : FifoBuffer → ℕ
free f = f.buffer_length - f.data_length

module _ (f : FifoBuffer) where
  abbrev start : ℕ
  start = (f.read_position + f.data_length) % f.buffer_length

  stored : List ℕ → ℕ → FifoBuffer
  stored src c = record f {
    buffer = rolled f.buffer f.buffer_length start c src;
    data_length = f.data_length + c;
  }

module _ (f : FifoBuffer) (v : IsValid f) (some_room : f.data_length < f.buffer_length)
    (src : List ℕ) (c : ℕ) (enough : c ≤ length src) (c_in : c ≤ free f) where
  start_in : start f < max 1 f.buffer_length
  start_in = ground (arith, wrap (f.read_position + f.data_length) f.buffer_length, v.position_in)

  stored-IsValid : IsValid (stored f src c)
  unfolding stored
  stored-IsValid = record {
    storage =
        length-rolled f.buffer f.buffer_length (start f) c v.storage start_in (omega arith) src
          enough;
    small = v.small;
    data_in = omega arith;
    position_in = v.position_in;
  }

  get_or-stored :
      (k : ℕ)
      → k < f.data_length + c
      → get_or (stored f src c).buffer ((f.read_position + k) % f.buffer_length) 0 ≡ (
          if ltb k f.data_length
          then get_or f.buffer ((f.read_position + k) % f.buffer_length) 0
          else get_or src (k - f.data_length) 0)
  unfolding stored
  get_or-stored k h = ground (
    arith,
    get_or-rolled f.buffer f.buffer_length (start f) c v.storage start_in (omega arith) src enough
        ((f.read_position + k) % f.buffer_length),
    wrap (f.read_position + k) f.buffer_length,
    wrap (f.read_position + f.data_length) f.buffer_length,
    v.position_in,
    v.storage,
  )

  contents-stored : contents (stored f src c) ≡ contents f ++ take c src
  unfolding stored
  contents-stored =
      list_ext 0 (contents (stored f src c)) (contents f ++ take c src)
        (omega (
          arith,
          length-contents (stored f src c),
          length-contents f,
          length-append (contents f) (take c src),
          length-take c src,
        ))
        (λ k h. ground (
          arith,
          length-contents (stored f src c),
          length-contents f,
          get_or-append (contents f) (take c src) k 0,
          get_or-take c src (k - f.data_length) 0,
          get_or-tabulate (f.data_length + c)
              (λ j. get_or (stored f src c).buffer ((f.read_position + j) % f.buffer_length) 0) k 0,
          get_or-tabulate f.data_length
              (λ j. get_or f.buffer ((f.read_position + j) % f.buffer_length) 0) k 0,
          get_or-stored k,
        ))

  copy_in_rolls :
      (bytes : ℕ)
      → c ≡ min bytes (free f)
      → copy_in f src bytes 0 ≡ some (c, (stored f src c).buffer)
  unfolding copy_in stored
  copy_in_rolls bytes e =
      rw
        (
          no_wrap,
          rem?-pos (f.read_position + f.data_length) f.buffer_length (omega arith),
          room,
          ← e,
        )
        (roll_copies f.buffer f.buffer_length (start f) c v.storage start_in (omega arith) src
          enough (λ all. some (c, all)))
    where
      no_wrap :
          add_size (add_size f.read_position f.data_length) 0 ≡ f.read_position + f.data_length
      no_wrap = omega (arith, v.small, v.position_in)

      room : sub_size (sub_size f.buffer_length f.data_length) 0 ≡ free f
      room = omega (arith, v.small)

  write_stores :
      (bytes : ℕ) → c ≡ min bytes (free f) → write f src bytes ≡ some (c, (stored f src c))
  unfolding write write_offset_locked after_write stored
  write_stores bytes e = rw (room, copy_in_rolls bytes e) (ground (arith, v.small))
    where
      room : leb f.buffer_length (add_size f.data_length 0) ≡ false
      room = ground (arith, v.small)

write_full :
    (f : FifoBuffer)
    → IsValid f
    → free f ≡ 0
    → (src : List ℕ) (bytes : ℕ) → write f src bytes ≡ some (0, f)
unfolding write write_offset_locked after_write
write_full f v e src bytes = rw full
  where
    full : leb f.buffer_length (add_size f.data_length 0) ≡ true
    full = ground (arith, v.small, v.data_in)

-- A valid buffer takes as many bytes as fit, at most `bytes`, and returns their number. They come
-- behind those that it held, in order; the capacity stays, and the buffer stays valid. No copy goes
-- outside an array, if the caller's holds `bytes` bytes.
pub write_lem :
    (f : FifoBuffer) (src : List ℕ) (bytes : ℕ)
    → IsValid f
    → bytes ≤ length src
    → (f' : FifoBuffer) × (write f src bytes ≡ some (min bytes (free f), f'))
      × (contents f' ≡ contents f ++ take (min bytes (free f)) src)
      × (f'.buffer_length ≡ f.buffer_length)
      × IsValid f'
unfolding stored
write_lem f src bytes v enough = elim (Bool-cases (ltb f.data_length f.buffer_length)) [
  | inl p ↦
      let r = ltb→lt f.data_length f.buffer_length p in
      let c = min bytes (free f) in
      (
        stored f src c,
        write_stores f v r src c (omega arith) (omega arith) bytes refl,
        contents-stored f v r src c (omega arith) (omega arith),
        refl,
        stored-IsValid f v r src c (omega arith) (omega arith),
      )
  | inr p ↦
      let full : free f ≡ 0 = ground (arith, v.data_in) in
      let none_fit : min bytes (free f) ≡ 0 = omega arith in
      (f, rw none_fit (write_full f v full src bytes), rw (none_fit, append-nil), refl, v)
]
