-- ===== src/Memory/Fifo/Valid.antt =====
-- The representation invariant of `FifoBuffer`, and positions that go round the array.
use native.Mathlib.Nat.{mod-eq_of_lt, mod-eq-sub-mod}
use nbsdk.Prelude.{
  ℕ, ◌+◌, ◌-◌, ◌%◌, ◌^◌, ◌≤◌, ◌<◌, max, ◌≡◌, arith, ltb, if◌then◌else◌, length, length-tabulate,
  some, inl, inr, Bool-cases, ltb→lt,
}
use nbsdk.Memory.Copy.{rem?}
use nbsdk.Memory.Fifo.{FifoBuffer, create, contents}

pub record IsValid (f : FifoBuffer) : Type 0 where
  pub storage : length f.buffer ≡ f.buffer_length
  pub small : f.buffer_length ≤ 2 ^ 63
  pub data_in : f.data_length ≤ f.buffer_length
  pub position_in : f.read_position < max 1 f.buffer_length

-- One subtraction is enough for a position within two lengths.
pub wrap : (a n : ℕ) → a < n + n → a % n ≡ (if ltb a n then a else a - n)
wrap a n h = elim (Bool-cases (ltb a n)) [
  | inl p ↦ rw (p, mod-eq_of_lt (ltb→lt a n p))
  | inr p ↦
      rw (p, mod-eq-sub-mod {n = a} {m = n} (ground arith))
        (mod-eq_of_lt {n = a - n} {m = n} (ground arith))
]

pub rem?-pos : (a n : ℕ) → 0 < n → rem? a n ≡ some (a % n)
rem?-pos a n h = ground arith

pub create-IsValid : (memory : ℕ → ℕ) (n : ℕ) → n ≤ 2 ^ 63 → IsValid (create memory n)
unfolding create
create-IsValid memory n h = record {
  storage = length-tabulate n memory;
  small = h;
  data_in = omega arith;
  position_in = omega arith;
}

pub length-contents : (f : FifoBuffer) → length (contents f) ≡ f.data_length
length-contents f = length-tabulate f.data_length _
