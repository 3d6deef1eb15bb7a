-- ===== src/Memory/Buffer/Access.antt =====
-- memery/include/buffer.h: the shorter constructors, the pointer to the elements, the iterators, which are
-- positions behind that pointer, and `operator!=`.
use nbsdk.Prelude.{ℕ, Bool, not, Option, List}
use nbsdk.Memory.Checked.{Result, ok, ◌>>=◌, ◌>>◌, check}
use nbsdk.Memory.Buffer.{Buffer, create, create_from, is_consistent, get_size, equals}

module _ {A : Type 0} where
  -- `BufferT(uint32_t size)`
  pub create_sized : (ℕ → A) → ℕ → Result (Buffer A)
  unfolding create
  create_sized memory size = create memory size size

  -- `BufferT(const T* data, uint32_t size)`
  pub create_copy : (ℕ → A) → List A → ℕ → Result (Buffer A)
  unfolding create_from
  create_copy memory src size = create_from memory src size size

  pub data_of : Buffer A → Result (Option (List A))
  data_of b = do check (is_consistent b); ok b.elements

  pub begin : Buffer A → Result ℕ
  unfolding data_of
  begin b = do start ← data_of b; ok 0

  pub end : Buffer A → Result ℕ
  unfolding data_of get_size
  end b = do start ← data_of b; size ← get_size b; ok size

  pub not_equals : (A → A → Bool) → Bool → Buffer A → Buffer A → Result Bool
  unfolding equals
  not_equals differ is_integral a b = do same ← equals differ is_integral a b; ok (not same)
