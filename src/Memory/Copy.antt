-- ===== src/Memory/Copy.antt =====
-- `size_t` arithmetic and `memcpy` between arrays, as the classes of the folder memery use them.
-- An array is the list of its elements; `none` stands for undefined behaviour.
use nbsdk.Prelude.{
  ℕ, ◌+◌, ◌-◌, ◌%◌, ◌^◌, ◌≤◌, ◌≡◌, ◌&&◌, Option, none, some, List, ◌++◌, arith, leb, ltb, ◌==◌,
  if◌then◌else◌, length, get_or, take, drop, length-append, length-take, length-drop, get_or-append,
  get_or-take, get_or-drop, take-append, append_assoc,
}

abbrev pub size_mod : ℕ
size_mod = 2 ^ 64

abbrev pub add_size : ℕ → ℕ → ℕ
add_size a b = (a + b) % size_mod

abbrev pub sub_size : ℕ → ℕ → ℕ
sub_size a b = (a + size_mod - b) % size_mod

-- `a % b`; a division by zero has no result.
abbrev pub rem? : ℕ → ℕ → Option ℕ
rem? a b = if b == 0 then none else some (a % b)

module _ {A : Type 0} where
  -- `dst` with `dst[i..i+n)` overwritten by `src[j..j+n)`.
  unfoldable pub copied : List A → ℕ → List A → ℕ → ℕ → List A
  copied dst i src j n = take i dst ++ (take n (drop j src) ++ drop (i + n) dst)

  -- `memcpy(dst + i, src + j, n)`, which must stay inside both arrays.
  unfoldable pub memcpy : List A → ℕ → List A → ℕ → ℕ → Option (List A)
  memcpy dst i src j n =
      if leb (i + n) (length dst) && leb (j + n) (length src)
      then some (copied dst i src j n)
      else none

  pub memcpy-copied :
      (dst : List A) (i : ℕ) (src : List A) (j n : ℕ)
      → i + n ≤ length dst
      → j + n ≤ length src
      → memcpy dst i src j n ≡ some (copied dst i src j n)
  unfolding memcpy
  memcpy-copied dst i src j n p q = ground arith

  pub length-copied :
      (dst : List A) (i : ℕ) (src : List A) (j n : ℕ)
      → i + n ≤ length dst
      → j + n ≤ length src
      → length (copied dst i src j n) ≡ length dst
  unfolding copied
  length-copied dst i src j n p q = omega (
    arith,
    length-append (take i dst) (take n (drop j src) ++ drop (i + n) dst),
    length-append (take n (drop j src)) (drop (i + n) dst),
    length-take i dst,
    length-take n (drop j src),
    length-drop j src,
    length-drop (i + n) dst,
  )

  pub get_or-copied :
      (dst : List A) (i : ℕ) (src : List A) (j n k : ℕ) (d : A)
      → i + n ≤ length dst
      → j + n ≤ length src
      → get_or (copied dst i src j n) k d
        ≡ (if leb i k && ltb k (i + n) then get_or src (j + (k - i)) d else get_or dst k d)
  unfolding copied
  get_or-copied dst i src j n k d p q = ground (
    arith,
    get_or-append (take i dst) (take n (drop j src) ++ drop (i + n) dst) k d,
    get_or-append (take n (drop j src)) (drop (i + n) dst) (k - length (take i dst)) d,
    length-take i dst,
    length-take n (drop j src),
    length-drop j src,
    get_or-take i dst k d,
    get_or-take n (drop j src) (k - i) d,
    get_or-drop j src (k - i) d,
    get_or-drop (i + n) dst (k - (i + n)) d,
  )

  -- A copy to index `i`, seen up to its end.
  pub take-copied :
      (dst : List A) (i : ℕ) (src : List A) (n : ℕ)
      → i + n ≤ length dst
      → n ≤ length src
      → take (i + n) (copied dst i src 0 n) ≡ take i dst ++ take n src
  unfolding copied
  take-copied dst i src n p q = rw (← append_assoc (take i dst) (take n src) (drop (i + n) dst)) (
      take-append (i + n) (take i dst ++ take n src) (drop (i + n) dst) (
        omega (
          arith,
          length-append (take i dst ++ take n src) (drop (i + n) dst),
          length-append (take i dst) (take n src),
          length-take i dst,
          length-take n src,
          length-drop (i + n) dst,
        )))
