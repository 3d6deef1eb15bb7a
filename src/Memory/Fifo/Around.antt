-- ===== src/Memory/Fifo/Around.antt =====
-- The two copies by which `FifoBuffer` takes bytes from an array, or puts them into one, going
-- round at the end of the array.
use nbsdk.Prelude.{
  ℕ, ◌+◌, ◌-◌, ◌%◌, ◌≤◌, ◌<◌, min, max, ◌&&◌, ◌≡◌, List, Option, arith, ltb, leb, if◌then◌else◌,
  length, get_or, ◌>>=◌,
}
use nbsdk.Memory.Copy.{copied, memcpy, memcpy-copied, length-copied, get_or-copied}
use nbsdk.Memory.Fifo.Valid.{wrap}

module _ (ring : List ℕ) (n p c : ℕ) where
  -- `c` bytes from position `p` on, in the order of the ring, at the front of an array.
  pub unrolled : List ℕ → List ℕ
  unrolled out =
      copied (copied out 0 ring p (min c (n - p))) (min c (n - p)) ring 0 (c - min c (n - p))

  -- The first `c` bytes of an array, put from position `p` on.
  pub rolled : List ℕ → List ℕ
  rolled src =
      copied (copied ring p src 0 (min c (n - p))) 0 src (min c (n - p)) (c - min c (n - p))

module _ (ring : List ℕ) (n p c : ℕ) (size : length ring ≡ n) (p_in : p < max 1 n)
    (c_in : c ≤ n) where
  abbrev tail : ℕ
  tail = min c (n - p)

  module _ (out : List ℕ) (room : c ≤ length out) where
    pub unroll_copies :
        {B : Type 0} (k : List ℕ → Option B)
        → (do
          first ← memcpy out 0 ring p (min c (n - p))
          second ← memcpy first (min c (n - p)) ring 0 (c - min c (n - p))
          k second)
          ≡ k (unrolled ring n p c out)
    unfolding unrolled
    unroll_copies k = rw (
      memcpy-copied out 0 ring p tail (omega arith) (omega arith),
      memcpy-copied (copied out 0 ring p tail) tail ring 0 (c - tail)
          (omega (arith, length-copied out 0 ring p tail (omega arith) (omega arith)))
          (omega arith),
    )

    pub length-unrolled : length (unrolled ring n p c out) ≡ length out
    unfolding unrolled
    length-unrolled = omega (
      arith,
      length-copied out 0 ring p tail,
      length-copied (copied out 0 ring p tail) tail ring 0 (c - tail),
    )

    pub get_or-unrolled :
        (k : ℕ)
        → get_or (unrolled ring n p c out) k 0
          ≡ (if ltb k c then get_or ring ((p + k) % n) 0 else get_or out k 0)
    unfolding unrolled
    get_or-unrolled k = ground (
      arith,
      length-copied out 0 ring p tail,
      get_or-copied out 0 ring p tail k 0,
      get_or-copied (copied out 0 ring p tail) tail ring 0 (c - tail) k 0,
      wrap (p + k) n,
    )

  module _ (src : List ℕ) (enough : c ≤ length src) where
    pub roll_copies :
        {B : Type 0} (k : List ℕ → Option B)
        → (do
          first ← memcpy ring p src 0 (min c (n - p))
          second ← memcpy first 0 src (min c (n - p)) (c - min c (n - p))
          k second)
          ≡ k (rolled ring n p c src)
    unfolding rolled
    roll_copies k = rw (
      memcpy-copied ring p src 0 tail (omega arith) (omega arith),
      memcpy-copied (copied ring p src 0 tail) 0 src tail (c - tail)
          (omega (arith, length-copied ring p src 0 tail (omega arith) (omega arith)))
          (omega arith),
    )

    pub length-rolled : length (rolled ring n p c src) ≡ n
    unfolding rolled
    length-rolled = omega (
      arith,
      length-copied ring p src 0 tail,
      length-copied (copied ring p src 0 tail) 0 src tail (c - tail),
    )

    pub get_or-rolled :
        (i : ℕ)
        → get_or (rolled ring n p c src) i 0 ≡ (
            if leb p i && ltb i (p + min c (n - p))
            then get_or src (i - p) 0
            else if ltb i (c - min c (n - p))
            then get_or src (min c (n - p) + i) 0
            else get_or ring i 0)
    unfolding rolled
    get_or-rolled i = ground (
      arith,
      length-copied ring p src 0 tail,
      get_or-copied ring p src 0 tail i 0,
      get_or-copied (copied ring p src 0 tail) 0 src tail (c - tail) i 0,
    )
