-- ===== src/Memory/Buffer/Tests.antt =====
-- `BufferT` at work on bytes, in a buffer of two elements with room for three.
use nbsdk.Prelude.{
  ℕ, ◌+◌, ◌/◌, ◌^◌, ◌≤◌, ◌<◌, ◌≡◌, ◌↔◌, ◌⊎◌, refl, [], ◌∷◌, some, true, false, Bool, not, ◌==◌,
  arith, take, get_elem?,
}
use nbsdk.Memory.Copy.{memcpy, copied}
use nbsdk.Memory.Checked.{ok, check_failed, undefined}
use nbsdk.Memory.Buffer.{
  Buffer, create, values, is_consistent, append_data, set_data, set_size, grow,
  ensure_capacity_with_headroom, move_construct, move_assign, move_assign_self, equals, at,
}
use nbsdk.Memory.Buffer.Valid.{IsValid, create-IsValid}
use nbsdk.Memory.Buffer.Grow.{ensure_capacity_with_headroom_lem, set_size_lem}
use nbsdk.Memory.Buffer.Append.{append_data_lem, append_data_overflow, set_data_lem}
use nbsdk.Memory.Buffer.Move.{move_lem, move_assign_self_loses, at_lem}
use nbsdk.Memory.Buffer.Compare.{equals_lem}

abbrev memory : ℕ → ℕ
memory i = 99

abbrev small : Buffer ℕ
small = record { size = 2; capacity = 3; elements = some (7 ∷ 8 ∷ 9 ∷ []) }

small-IsValid : IsValid small
small-IsValid = omega arith

abbrev other : Buffer ℕ
other = record { size = 2; capacity = 2; elements = some (7 ∷ 8 ∷ []) }

other-IsValid : IsValid other
other-IsValid = omega arith

abbrev differ : ℕ → ℕ → Bool
differ x y = not (x == y)

differ_iff : (x y : ℕ) → (differ x y ≡ false) ↔ (x ≡ y)
differ_iff x y = ground arith

append_data-small :
    append_data memory small (1 ∷ 2 ∷ 3 ∷ []) 3
    ≡ ok (record { size = 5; capacity = 5; elements = some (7 ∷ 8 ∷ 1 ∷ 2 ∷ 3 ∷ []) })
unfolding append_data ensure_capacity_with_headroom grow is_consistent memcpy copied
append_data-small = refl

create-IsValid_run :
    (b : Buffer ℕ) × (create memory 2 5 ≡ ok b) × (b.size ≡ 2) × (b.capacity ≡ 5) × IsValid b
create-IsValid_run = create-IsValid memory 2 5 (omega arith) (omega arith)

ensure_capacity_with_headroom_lem_example :
    (b' : Buffer ℕ) × (ensure_capacity_with_headroom memory small 4 true ≡ ok b')
    × (values b' ≡ 7 ∷ 8 ∷ [])
    × (b'.size ≡ 2)
    × (4 ≤ b'.capacity)
    × (3 ≤ b'.capacity)
    × ((b'.capacity ≡ 3)
        ⊎ (◌≡◌ {A = Bool} true false)
        ⊎ (2 ^ 32 ≤ 3 + 3 / 2)
        ⊎ (3 + 3 / 2 ≤ b'.capacity))
    × IsValid b'
ensure_capacity_with_headroom_lem_example =
    ensure_capacity_with_headroom_lem memory small 4 true small-IsValid (omega arith)

set_size_lem_run :
    (b' : Buffer ℕ) × (set_size memory small 5 ≡ ok b')
    × (b'.size ≡ 5)
    × (take 2 (values b') ≡ 7 ∷ 8 ∷ [])
    × IsValid b'
set_size_lem_run = set_size_lem memory small 5 small-IsValid (omega arith)

append_data_lem_example :
    (b' : Buffer ℕ) × (append_data memory small (1 ∷ 2 ∷ []) 2 ≡ ok b')
    × (values b' ≡ 7 ∷ 8 ∷ 1 ∷ 2 ∷ [])
    × (3 ≤ b'.capacity)
    × IsValid b'
append_data_lem_example =
    append_data_lem memory small (1 ∷ 2 ∷ []) 2 small-IsValid (omega arith) (omega arith)

append_data_overflow_example : append_data memory small (1 ∷ 2 ∷ []) 4_294_967_294 ≡ undefined
append_data_overflow_example =
    append_data_overflow memory small (1 ∷ 2 ∷ []) 4_294_967_294 small-IsValid (omega arith)
      (omega arith)

set_data_lem_example :
    (b' : Buffer ℕ) × (set_data memory small (1 ∷ 2 ∷ 3 ∷ 4 ∷ []) 4 ≡ ok b')
    × (values b' ≡ 1 ∷ 2 ∷ 3 ∷ 4 ∷ [])
    × IsValid b'
set_data_lem_example =
    set_data_lem memory small (1 ∷ 2 ∷ 3 ∷ 4 ∷ []) 4 small-IsValid (omega arith) (omega arith)

move_lem_example :
    (rest : Buffer ℕ) × (move_construct other ≡ ok (other, rest))
    × (move_assign small other ≡ ok (other, rest))
    × (values rest ≡ [])
    × IsValid rest
move_lem_example = move_lem small other small-IsValid other-IsValid

move_assign_self_loses_example :
    (b' : Buffer ℕ) × (move_assign_self small ≡ ok b')
    × (values b' ≡ [])
    × (b'.capacity ≡ 0)
    × (is_consistent b' ≡ true)
move_assign_self_loses_example = move_assign_self_loses small small-IsValid

at_lem_run :
    ((1 < 2) × (x : ℕ) × (at small 1 ≡ ok x) × (get_elem? (7 ∷ 8 ∷ []) 1 ≡ some x))
    ⊎ ((2 ≤ 1) × (at small 1 ≡ check_failed))
at_lem_run = at_lem small 1 small-IsValid

equals_lem_example :
    (r : Bool) × (equals differ false small other ≡ ok r)
    × ((r ≡ true) ↔ (values small ≡ values other))
equals_lem_example = equals_lem differ differ_iff false small other small-IsValid other-IsValid
