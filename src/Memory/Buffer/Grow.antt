-- ===== src/Memory/Buffer/Grow.antt =====
-- How `BufferT` makes room: what it keeps, and how much it takes.
use nbsdk.Prelude.{
  ℕ, ◌+◌, ◌/◌, ◌^◌, ◌≤◌, ◌<◌, max, min, ◌≡◌, refl, ap, ◌∙◌, sym, ◌⊎◌, inl, inr, Bool, true, false,
  some, arith, leb, if◌then◌else◌, length, length-tabulate, take, take_path, take-take, tabulate,
  Bool-cases, leb→le,
}
use nbsdk.Memory.Copy.{copied, memcpy-copied, length-copied, take-copied}
use nbsdk.Memory.Checked.{ok}
use nbsdk.Memory.Buffer.{
  Buffer, add_u32, array, values, grow, ensure_capacity_with_headroom, set_size,
}
use nbsdk.Memory.Buffer.Valid.{IsValid, IsValid-is_consistent}

module _ {A : Type 0} (memory : ℕ → A) where
  -- The capacity that growth aims at.
  abbrev pub target : Buffer A → ℕ → Bool → ℕ
  target b capacity extra_headroom =
      if extra_headroom then max capacity (add_u32 b.capacity (b.capacity / 2)) else capacity

  grown : Buffer A → ℕ → Buffer A
  grown b n = record b {
    elements = some (copied (tabulate n memory) 0 (array b.elements) 0 b.size);
    capacity = n;
  }

  module _ (b : Buffer A) (v : IsValid b) (n : ℕ) (more : b.size ≤ n) (small : n < 2 ^ 32) where
    room : 0 + b.size ≤ length (tabulate n memory)
    room = omega (arith, length-tabulate n memory)

    grown-IsValid : IsValid (grown b n)
    unfolding grown
    grown-IsValid = record {
      storage = omega (
        arith,
        length-tabulate n memory,
        length-copied (tabulate n memory) 0 (array b.elements) 0 b.size room
            (omega (arith, v.storage, v.size_in)),
      );
      size_in = more;
      small = small;
    }

    values-grown : values (grown b n) ≡ values b
    unfolding grown
    values-grown =
        take_path b.size (0 + b.size) _ (omega arith)
        ∙ take-copied (tabulate n memory) 0 (array b.elements) b.size room
            (omega (arith, v.storage, v.size_in))

    grows :
        (capacity : ℕ) (extra_headroom : Bool)
        → target b capacity extra_headroom ≡ n
        → grow memory b capacity extra_headroom ≡ ok (grown b n)
    unfolding grow grown
    grows capacity extra_headroom e = rw (
      e,
      memcpy-copied (tabulate n memory) 0 (array b.elements) 0 b.size room
          (omega (arith, v.storage, v.size_in)),
      IsValid-is_consistent (grown b n) grown-IsValid,
    )

  -- The capacity afterwards.
  abbrev pub new_capacity : Buffer A → ℕ → Bool → ℕ
  new_capacity b capacity extra_headroom =
      if leb capacity b.capacity then b.capacity else target b capacity extra_headroom

  -- Room for `capacity` elements is made without a failed check or undefined behaviour, and the
  -- elements in use stay. The capacity never shrinks, and with headroom a growth is by half at least,
  -- unless that half would overflow 32 bits.
  pub ensure_capacity_with_headroom_lem :
      (b : Buffer A) (capacity : ℕ) (extra_headroom : Bool)
      → IsValid b
      → capacity < 2 ^ 32
      → (b' : Buffer A) × (ensure_capacity_with_headroom memory b capacity extra_headroom ≡ ok b')
        × (values b' ≡ values b)
        × (b'.size ≡ b.size)
        × (capacity ≤ b'.capacity)
        × (b.capacity ≤ b'.capacity)
        × ((b'.capacity ≡ b.capacity)
            ⊎ (extra_headroom ≡ false)
            ⊎ (2 ^ 32 ≤ b.capacity + b.capacity / 2)
            ⊎ (b.capacity + b.capacity / 2 ≤ b'.capacity))
        × IsValid b'
  unfolding ensure_capacity_with_headroom grown
  ensure_capacity_with_headroom_lem b capacity extra_headroom v small =
      elim (Bool-cases (leb capacity b.capacity)) [
        | inl p ↦ (
          b,
          rw (IsValid-is_consistent b v, p),
          refl,
          refl,
          leb→le capacity b.capacity p,
          omega arith,
          inl refl,
          v,
        )
        | inr p ↦
            let n = target b capacity extra_headroom in
            let enough : capacity ≤ n = ground arith in
            let within : n < 2 ^ 32 = ground arith in
            let above : b.capacity < capacity = ground arith in
            let more : b.size ≤ n = omega (arith, v.size_in) in
            (
              grown b n,
              rw (
                IsValid-is_consistent b v,
                p,
                grows b v n more within capacity extra_headroom refl,
              ),
              values-grown b v n more within,
              refl,
              enough,
              omega arith,
              ground arith,
              grown-IsValid b v n more within,
            )
      ]

  -- `SetSize` sets the size to any 32-bit number; what the old and the new size have in common stays.
  pub set_size_lem :
      (b : Buffer A) (size : ℕ)
      → IsValid b
      → size < 2 ^ 32
      → (b' : Buffer A) × (set_size memory b size ≡ ok b')
        × (b'.size ≡ size)
        × (take b.size (values b') ≡ take size (values b))
        × IsValid b'
  unfolding set_size
  set_size_lem b size v small =
      let (b₁, e, same, size_same, room, _, _, v₁) =
        ensure_capacity_with_headroom_lem b size true v small in
      (
        record b₁ { size = size },
        rw e,
        refl,
        take-take b.size size (array b₁.elements)
            ∙ take_path (min b.size size) (min size b₁.size) (array b₁.elements)
                (omega (arith, size_same))
            ∙ sym (take-take size b₁.size (array b₁.elements))
            ∙ ap (take size) same,
        record { storage = v₁.storage; size_in = room; small = v₁.small },
      )
