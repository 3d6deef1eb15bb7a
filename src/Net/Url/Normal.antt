-- ===== src/Net/Url/Normal.antt =====
-- What every builder of a URL satisfies, and how one is made.
use nbsdk.Prelude.{
  ℕ, zero, suc, Bool, true, false, some, List, [], ◌∷◌, ◌++◌, ◌≡◌, ◌≢◌, subst, Text, arith, inl,
  inr, Bool-cases, set, some_path, if◌then◌else◌,
}
use nbsdk.Prelude.Int.{ℤ, pos, negsuc}
use nbsdk.Net.Strings.{codes, is_empty, text_eq, split}
use nbsdk.Net.Params.Sets.{IsSorted}
use nbsdk.Net.Params.Maps.{IsOrdered, All}
use nbsdk.Net.Url.{
  Builder, empty_builder, http, https, overwrite, set_scheme, set_host, set_port, pop_back, pop,
  push, push_all, add_encoded_path_segment, add_encoded_path_segments, set_encoded_path_segment,
  erase_at, remove_path_segment, add_encoded_fragment,
}

abbrev pub IsSegment : Text → Type 0
IsSegment s =
    (is_empty s ≡ false) × (text_eq s (codes ".") ≡ false) × (text_eq s (codes "..") ≡ false)

abbrev pub AreSegments : List Text → Type 0
AreSegments [] = Unit
AreSegments (s ∷ segments) = IsSegment s × AreSegments segments

-- A name, and a set of its values.
abbrev pub IsEntry : Text → List Text → Type 0
IsEntry name values = (is_empty name ≡ false) × (values ≢ []) × IsSorted values

pub record IsNormal (b : Builder) : Type 0 where
  pub segments : AreSegments b.encoded_path_segments
  pub ordered : IsOrdered b.encoded_query_names_and_values
  pub entries : All IsEntry b.encoded_query_names_and_values

pub append-AreSegments :
    (xs ys : List Text) → AreSegments xs → AreSegments ys → AreSegments (xs ++ ys)
append-AreSegments [] ys a b = b
append-AreSegments (x ∷ xs) ys (p, a) b = (p, append-AreSegments xs ys a b)

pop_back-AreSegments : (xs : List Text) → AreSegments xs → AreSegments (pop_back xs)
unfolding pop_back
pop_back-AreSegments [] a = tt
pop_back-AreSegments (x ∷ []) a = tt
pop_back-AreSegments (x ∷ y ∷ xs) (p, a) = (p, pop_back-AreSegments (y ∷ xs) a)

set-AreSegments :
    (xs : List Text) (i : ℕ) (s : Text) → IsSegment s → AreSegments xs → AreSegments (set xs i s)
set-AreSegments [] i s p a = tt
set-AreSegments (x ∷ xs) zero s p (q, a) = (p, a)
set-AreSegments (x ∷ xs) (suc i) s p (q, a) = (q, set-AreSegments xs i s p a)

erase_at-AreSegments : (xs : List Text) (i : ℕ) → AreSegments xs → AreSegments (erase_at xs i)
unfolding erase_at
erase_at-AreSegments [] i a = tt
erase_at-AreSegments (x ∷ xs) zero (q, a) = a
erase_at-AreSegments (x ∷ xs) (suc i) (q, a) = (q, erase_at-AreSegments xs i a)

pub empty_builder-IsNormal : IsNormal empty_builder
empty_builder-IsNormal = record { segments = tt; ordered = tt; entries = tt }

pub if-IsNormal :
    (c : Bool) (x y : Builder) → IsNormal x → IsNormal y → IsNormal (if c then x else y)
if-IsNormal true x y n m = n
if-IsNormal false x y n m = m

-- The other fields do not matter.
pub other-IsNormal :
    (b : Builder) (scheme host : Text) (port : ℤ) (fragment : Text)
    → IsNormal b
    → IsNormal record b { scheme = scheme; host = host; port = port; encoded_fragment = fragment }
other-IsNormal b scheme host port fragment n = record {
  segments = n.segments;
  ordered = n.ordered;
  entries = n.entries;
}

with_segments :
    (b : Builder) (segments : List Text)
    → AreSegments segments
    → IsNormal b
    → IsNormal (record b { encoded_path_segments = segments })
with_segments b segments a n = record { segments = a; ordered = n.ordered; entries = n.entries }

pub with_params :
    (b : Builder) (params : List (Text × List Text))
    → IsOrdered params
    → All IsEntry params
    → IsNormal b
    → IsNormal (record b { encoded_query_names_and_values = params })
with_params b params o a n = record { segments = n.segments; ordered = o; entries = a }

pub set_scheme-IsNormal :
    (b : Builder) (scheme : Text) → IsNormal b → IsNormal (set_scheme b scheme)
unfolding set_scheme
set_scheme-IsNormal b scheme n =
    let plain = other-IsNormal b http b.host b.port b.encoded_fragment n in
    let secure = other-IsNormal b https b.host b.port b.encoded_fragment n in
    if-IsNormal _ _ _ plain (if-IsNormal _ _ _ secure plain)

pub set_host-IsNormal :
    (b b' : Builder) (host : Text) → set_host b host ≡ some b' → IsNormal b → IsNormal b'
unfolding set_host overwrite
set_host-IsNormal b b' [] e n = subst IsNormal (some_path e) n
set_host-IsNormal b b' (c ∷ host) e n = ground arith

pub set_port-IsNormal : (b : Builder) (port : ℤ) → IsNormal b → IsNormal (set_port b port)
unfolding set_port
set_port-IsNormal b (negsuc p) n = other-IsNormal b b.scheme b.host (negsuc 0) b.encoded_fragment n
set_port-IsNormal b (pos p) n =
    if-IsNormal _ _ _ (other-IsNormal b b.scheme b.host (negsuc 0) b.encoded_fragment n)
      (other-IsNormal b b.scheme b.host (pos p) b.encoded_fragment n)

pub push-IsNormal : (b : Builder) (s : Text) → IsNormal b → IsNormal (push b s)
unfolding push pop
push-IsNormal b s n = elim (Bool-cases (is_empty s)) [
  | inl e ↦ rw e n
  | inr e ↦ elim (Bool-cases (text_eq s (codes "."))) [
    | inl one ↦ rw (e, one) n
    | inr one ↦ elim (Bool-cases (text_eq s (codes ".."))) [
      | inl two ↦
          rw (e, one, two)
            (with_segments b _ (pop_back-AreSegments b.encoded_path_segments n.segments) n)
      | inr two ↦
          rw (e, one, two)
            (with_segments b _
              (append-AreSegments b.encoded_path_segments (s ∷ []) n.segments ((e, one, two), tt))
              n)
    ]
  ]
]

pub push_all-IsNormal : (b : Builder) (parts : List Text) → IsNormal b → IsNormal (push_all b parts)
unfolding push_all
push_all-IsNormal b [] n = n
push_all-IsNormal b (s ∷ parts) n = elim (Bool-cases (is_empty s)) [
  | inl e ↦ rw e (push_all-IsNormal b parts n)
  | inr e ↦ rw e (push_all-IsNormal (push b s) parts (push-IsNormal b s n))
]

pub add_encoded_path_segment-IsNormal :
    (b : Builder) (s : Text) → IsNormal b → IsNormal (add_encoded_path_segment b s)
unfolding add_encoded_path_segment
add_encoded_path_segment-IsNormal b s n = if-IsNormal _ _ _ n (push-IsNormal b s n)

pub add_encoded_path_segments-IsNormal :
    (b : Builder) (s : Text) → IsNormal b → IsNormal (add_encoded_path_segments b s)
unfolding add_encoded_path_segments
add_encoded_path_segments-IsNormal b s n =
    if-IsNormal _ _ _ n (push_all-IsNormal b (split b'/' s) n)

pub set_encoded_path_segment-IsNormal :
    (b : Builder) (i : ℤ) (s : Text) → IsNormal b → IsNormal (set_encoded_path_segment b i s)
unfolding set_encoded_path_segment
set_encoded_path_segment-IsNormal b (negsuc i) s n = n
set_encoded_path_segment-IsNormal b (pos i) s n = elim (Bool-cases (is_empty s)) [
  | inl e ↦ rw e n
  | inr e ↦ elim (Bool-cases (text_eq s (codes "."))) [
    | inl one ↦ rw (e, one) n
    | inr one ↦ elim (Bool-cases (text_eq s (codes ".."))) [
      | inl two ↦ rw (e, one, two) n
      | inr two ↦
          rw (e, one, two)
            (if-IsNormal _ _ _ n (
              with_segments b _
                (set-AreSegments b.encoded_path_segments i s (e, one, two) n.segments) n))
    ]
  ]
]

pub remove_path_segment-IsNormal :
    (b : Builder) (i : ℤ) → IsNormal b → IsNormal (remove_path_segment b i)
unfolding remove_path_segment
remove_path_segment-IsNormal b (negsuc i) n = n
remove_path_segment-IsNormal b (pos i) n =
    if-IsNormal _ _ _ n
      (with_segments b _ (erase_at-AreSegments b.encoded_path_segments i n.segments) n)

pub add_encoded_fragment-IsNormal :
    (b : Builder) (f : Text) → IsNormal b → IsNormal (add_encoded_fragment b f)
unfolding add_encoded_fragment
add_encoded_fragment-IsNormal b f n =
    if-IsNormal _ _ _ n (other-IsNormal b b.scheme b.host b.port f n)
