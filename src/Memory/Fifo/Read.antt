-- ===== src/Memory/Fifo/Read.antt =====
-- What `FifoBuffer::Read` hands out, and what stays.
use nbsdk.Prelude.{
  ◌⊎◌, leb→le, ℕ, ◌+◌, ◌-◌, ◌%◌, ◌≤◌, ◌<◌, min, max, ◌≡◌, refl, List, ◌++◌, some, arith, ltb, leb,
  if◌then◌else◌, length, take, drop, get_or, inl, inr, Bool-cases, list_ext, length-take,
  length-drop, take-append-drop, get_or-take, get_or-drop, get_or-tabulate, sym,
}
use nbsdk.Memory.Copy.{add_size}
use nbsdk.Memory.Fifo.{
  FifoBuffer, failed, done, contents, read, read_offset_locked, copy_out, after_read,
}
use nbsdk.Memory.Fifo.Valid.{IsValid, wrap, rem?-pos, length-contents}
use nbsdk.Memory.Fifo.Around.{unrolled, unroll_copies, length-unrolled, get_or-unrolled}

module _ (f : FifoBuffer) where
  abbrev position : ℕ → ℕ
  position offset = (f.read_position + offset) % f.buffer_length

  handed : List ℕ → ℕ → ℕ → List ℕ
  handed out c offset = unrolled f.buffer f.buffer_length (position offset) c out

  -- The object when `c` bytes are gone.
  rest : ℕ → FifoBuffer
  rest c = record f { read_position = position c; data_length = f.data_length - c }

module _ (f : FifoBuffer) (v : IsValid f) (c offset : ℕ) (held : offset + c ≤ f.data_length)
    (some_data : 0 < f.data_length) where
  position_in : position f offset < max 1 f.buffer_length
  position_in =
      ground (arith, wrap (f.read_position + offset) f.buffer_length, v.position_in, v.data_in)

  module _ (out : List ℕ) (room : c ≤ length out) where
    get_or-handed :
        (k : ℕ)
        → get_or (handed f out c offset) k 0
          ≡ (if ltb k c then get_or (contents f) (offset + k) 0 else get_or out k 0)
    unfolding handed
    get_or-handed k = ground (
      arith,
      get_or-unrolled f.buffer f.buffer_length (position f offset) c v.storage position_in
          (omega (arith, v.data_in)) out room k,
      wrap (f.read_position + offset) f.buffer_length,
      wrap (f.read_position + (offset + k)) f.buffer_length,
      wrap (position f offset + k) f.buffer_length,
      v.position_in,
      v.data_in,
      get_or-tabulate f.data_length (λ j. get_or f.buffer (position f j) 0) (offset + k) 0,
    )

    length-handed : length (handed f out c offset) ≡ length out
    unfolding handed
    length-handed =
        length-unrolled f.buffer f.buffer_length (position f offset) c v.storage position_in
          (omega (arith, v.data_in)) out room

    take-handed : take c (handed f out c offset) ≡ take c (drop offset (contents f))
    take-handed =
        list_ext 0 (take c (handed f out c offset)) (take c (drop offset (contents f)))
          (omega (
            arith,
            length-handed,
            length-contents f,
            length-take c (handed f out c offset),
            length-take c (drop offset (contents f)),
            length-drop offset (contents f),
          ))
          (λ k h. ground (
            arith,
            length-take c (handed f out c offset),
            get_or-handed k,
            get_or-take c (handed f out c offset) k 0,
            get_or-take c (drop offset (contents f)) k 0,
            get_or-drop offset (contents f) k 0,
          ))

    drop-handed : drop c (handed f out c offset) ≡ drop c out
    drop-handed =
        list_ext 0 (drop c (handed f out c offset)) (drop c out)
          (omega (arith, length-handed, length-drop c (handed f out c offset), length-drop c out))
          (λ k h. ground (
            arith,
            get_or-handed (c + k),
            get_or-drop c (handed f out c offset) k 0,
            get_or-drop c out k 0,
          ))

    copy_out_unrolls :
        (bytes : ℕ)
        → c ≡ min bytes (f.data_length - offset)
        → copy_out f out bytes offset ≡ some (c, handed f out c offset)
    unfolding copy_out handed
    copy_out_unrolls bytes e =
        rw
          (
            no_wrap,
            rem?-pos (f.read_position + offset) f.buffer_length (omega (arith, v.data_in)),
            ← e,
          )
          (unroll_copies f.buffer f.buffer_length (position f offset) c v.storage position_in
            (omega (arith, v.data_in)) out room (λ all. some (c, all)))
      where
        no_wrap : add_size f.read_position offset ≡ f.read_position + offset
        no_wrap = omega (arith, v.small, v.position_in, v.data_in)

-- At an offset behind the data `ReadOffsetLocked` fails. Before that it copies the bytes from the
-- offset on, as many as there are and at most `bytes`, to the front of the caller's array, which it
-- leaves as it was behind them. No copy goes outside an array, if the caller's holds `bytes` bytes.
pub read_offset_locked_lem :
    (f : FifoBuffer) (out : List ℕ) (bytes offset : ℕ)
    → IsValid f
    → bytes ≤ length out
    → ((f.data_length ≤ offset) × (read_offset_locked f out bytes offset ≡ some failed))
      ⊎ ((offset < f.data_length)
          × (out' : List ℕ) × (read_offset_locked f out bytes offset
              ≡ some (done (min bytes (f.data_length - offset), out')))
          × (take (min bytes (f.data_length - offset)) out'
              ≡ take (min bytes (f.data_length - offset)) (drop offset (contents f)))
          × (drop (min bytes (f.data_length - offset)) out'
              ≡ drop (min bytes (f.data_length - offset)) out)
          × (length out' ≡ length out))
unfolding read_offset_locked
read_offset_locked_lem f out bytes offset v enough = elim (Bool-cases (leb f.data_length offset)) [
  | inl p ↦ inl (leb→le f.data_length offset p, rw p)
  | inr p ↦
      let before : offset < f.data_length = ground arith in
      let c = min bytes (f.data_length - offset) in
      let held : offset + c ≤ f.data_length = omega arith in
      let some_data : 0 < f.data_length = omega arith in
      let room : c ≤ length out = omega arith in
      inr (
        before,
        handed f out c offset,
        rw (p, copy_out_unrolls f v c offset held some_data out room bytes refl),
        take-handed f v c offset held some_data out room,
        drop-handed f v c offset held some_data out room,
        length-handed f v c offset held some_data out room,
      )
]

module _ (f : FifoBuffer) (v : IsValid f) (c : ℕ) (held : c ≤ f.data_length) where
  contents-rest : contents (rest f c) ≡ drop c (contents f)
  unfolding rest
  contents-rest =
      list_ext 0 (contents (rest f c)) (drop c (contents f))
        (omega (arith, length-contents (rest f c), length-contents f, length-drop c (contents f)))
        (λ k h. ground (
          arith,
          length-contents (rest f c),
          get_or-drop c (contents f) k 0,
          get_or-tabulate (f.data_length - c)
              (λ j. get_or f.buffer ((position f c + j) % f.buffer_length) 0) k 0,
          get_or-tabulate f.data_length (λ j. get_or f.buffer (position f j) 0) (c + k) 0,
          wrap (f.read_position + c) f.buffer_length,
          wrap (f.read_position + (c + k)) f.buffer_length,
          wrap (position f c + k) f.buffer_length,
          v.position_in,
          v.data_in,
        ))

  rest-IsValid : 0 < f.data_length → IsValid (rest f c)
  unfolding rest
  rest-IsValid h = record {
    storage = v.storage;
    small = v.small;
    data_in = omega (arith, v.data_in);
    position_in =
        ground (arith, wrap (f.read_position + c) f.buffer_length, v.position_in, v.data_in);
  }

-- A valid buffer hands out its oldest bytes, as many as it holds and at most `bytes`, and returns
-- their number: with what stays they are the bytes that it held, in order. The caller's array is
-- left as it was behind them; the capacity stays, and the buffer stays valid. No copy goes outside
-- an array, if the caller's holds `bytes` bytes.
pub read_lem :
    (f : FifoBuffer) (out : List ℕ) (bytes : ℕ)
    → IsValid f
    → bytes ≤ length out
    → (out' : List ℕ) × (f' : FifoBuffer) × (read f out bytes
        ≡ some (min bytes f.data_length, out', f'))
      × (contents f ≡ take (min bytes f.data_length) out' ++ contents f')
      × (drop (min bytes f.data_length) out' ≡ drop (min bytes f.data_length) out)
      × (length out' ≡ length out)
      × (f'.buffer_length ≡ f.buffer_length)
      × IsValid f'
unfolding read after_read rest
read_lem f out bytes v enough = elim (read_offset_locked_lem f out bytes 0 v enough) [
  | inl (none_held, e) ↦
      let nothing : min bytes f.data_length ≡ 0 = omega arith in
      (out, f, rw (e, nothing), rw nothing, rw nothing, refl, refl, v)
  | inr (before, out', e, front, back, size) ↦
      let c = min bytes f.data_length in
      let held : c ≤ f.data_length = omega arith in
      let whole : f.data_length - 0 ≡ f.data_length = omega arith in
      let no_wrap : add_size f.read_position c ≡ f.read_position + c =
        omega (arith, v.small, v.position_in, v.data_in) in
      (
        out',
        rest f c,
        rw (
          rw whole at e,
          no_wrap,
          rem?-pos (f.read_position + c) f.buffer_length (omega (arith, v.data_in)),
        ),
        rw (rw whole at front, contents-rest f v c held) (sym (take-append-drop c (contents f))),
        rw whole at back,
        size,
        refl,
        rest-IsValid f v c held before,
      )
]
