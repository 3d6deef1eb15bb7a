-- ===== src/Net/Url/Pieces.antt =====
-- The text of a query as its pieces, one for each name and value.
use nbsdk.Prelude.{
  ℕ, suc, ◌+◌, ◌≤◌, ◌<◌, true, false, some, List, [], ◌∷◌, ◌++◌, ◌≡◌, refl, sym, ap, ◌∙◌, Text,
  arith, ltb, ◌==◌, length, append-nil, append_assoc, length-append,
}
use nbsdk.Net.Strings.{npos, is_empty, split, add_size}
use nbsdk.Net.Strings.Search.{
  IsWithout, IsFree, lacks_all-IsFree, append-IsFree, find_at, substr_at, substr_behind,
}
use nbsdk.Net.Params.Maps.{All}
use nbsdk.Net.Url.{Builder, shown_values, shown_params, add_encoded_query_parameter}
use nbsdk.Net.Url.Parse.{blanks, add_parameter, add_parameters, Parsed}
use nbsdk.Net.Url.Segments.{split-append, split_without}
use nbsdk.Net.Url.Normal.{IsEntry}
use nbsdk.Net.Url.Front.{not_empty}

abbrev pub Params : Type 0
Params = List (Text × List Text)

abbrev pub piece : Text × Text → Text
piece (name, value) = name ++ (b'=' ∷ value)

abbrev pub joined : List (Text × Text) → Text
joined [] = []
joined (p ∷ []) = piece p
joined (p ∷ q ∷ pairs) = piece p ++ (b'&' ∷ joined (q ∷ pairs))

abbrev pub named : Text → List Text → List (Text × Text)
named name [] = []
named name (v ∷ values) = (name, v) ∷ named name values

-- The names and values in the order in which they are written.
abbrev pub pairs_of : Params → List (Text × Text)
pairs_of [] = []
pairs_of ((name, values) ∷ params) = named name values ++ pairs_of params

shown_values-joined :
    (name : Text) (n i : ℕ) (v : Text) (values : List Text)
    → n ≡ i + length (v ∷ values)
    → shown_values name n i (v ∷ values) ≡ joined (named name (v ∷ values))
unfolding shown_values
shown_values-joined name n i v [] h =
    let last : ltb (suc i) n ≡ false = ground arith in rw last (simp append-nil)
shown_values-joined name n i v (w ∷ values) h =
    let more : ltb (suc i) n ≡ true = ground arith in
    rw (more, shown_values-joined name n (suc i) w values (omega arith)) (simp append_assoc)

joined-append :
    (p : Text × Text) (ps : List (Text × Text)) (q : Text × Text) (qs : List (Text × Text))
    → joined ((p ∷ ps) ++ (q ∷ qs)) ≡ joined (p ∷ ps) ++ (b'&' ∷ joined (q ∷ qs))
joined-append p [] q qs = refl
joined-append p (r ∷ ps) q qs =
    rw (joined-append r ps q qs)
      (sym (append_assoc (piece p) (b'&' ∷ joined (r ∷ ps)) (b'&' ∷ joined (q ∷ qs))))

pub shown_params-joined :
    (n i : ℕ) (params : Params)
    → n ≡ i + length params
    → All IsEntry params
    → shown_params n i params ≡ joined (pairs_of params)
unfolding shown_params
shown_params-joined n i [] h a = refl
shown_params-joined n i ((name, []) ∷ params) h ((full, some_value, sorted), a) =
    absurd (some_value refl)
shown_params-joined n i ((name, v ∷ vs) ∷ []) h (e, a) =
    let last : ltb (suc i) n ≡ false = ground arith in
    let shown = named name (v ∷ vs) in
    rw (last, shown_values-joined name (length (v ∷ vs)) 0 v vs (omega arith))
      (append-nil (joined shown ++ [])
        ∙ (append-nil (joined shown) ∙ ap joined (sym (append-nil shown))))
shown_params-joined n i ((name, v ∷ vs) ∷ (name', []) ∷ params) h
      (e, ((full, some_value, sorted), a)) =
    absurd (some_value refl)
shown_params-joined n i ((name, v ∷ vs) ∷ (name', w ∷ ws) ∷ params) h (e, a) =
    let more : ltb (suc i) n ≡ true = ground arith in
    let rest = shown_params-joined n (suc i) ((name', w ∷ ws) ∷ params) (omega arith) a in
    rw
      (
        more,
        shown_values-joined name (length (v ∷ vs)) 0 v vs (omega arith),
        rest,
        joined-append (name, v) (named name vs) (name', w) (named name' ws ++ pairs_of params),
      )
      (append_assoc (joined (named name (v ∷ vs))) (b'&' ∷ []) _)

-- The bytes that end a piece or the query, or are cut off.
abbrev pub query_marks : List ℕ
query_marks = b'&' ∷ b'#' ∷ blanks

abbrev pub IsPair : Text × Text → Type 0
IsPair (name, value) =
    (is_empty name ≡ false)
    × IsWithout b'=' name
    × IsFree query_marks name
    × IsFree query_marks value

abbrev pub ArePairs : List (Text × Text) → Type 0
ArePairs [] = Unit
ArePairs (p ∷ pairs) = IsPair p × ArePairs pairs

piece-IsFree : (p : Text × Text) → IsPair p → IsFree query_marks (piece p)
piece-IsFree (name, value) (full, equals, free, free') =
    append-IsFree query_marks name (b'=' ∷ value) free (
      append-IsFree query_marks (b'=' ∷ []) value (lacks_all-IsFree query_marks (b'=' ∷ []) refl)
        free')

-- The bytes that a query must not hold.
abbrev pub ends : List ℕ
ends = b'#' ∷ blanks

pub joined-IsFree : (pairs : List (Text × Text)) → ArePairs pairs → IsFree ends (joined pairs)
joined-IsFree [] a = lacks_all-IsFree ends [] refl
joined-IsFree (p ∷ []) (h, a) = (piece-IsFree p h).1
joined-IsFree (p ∷ q ∷ pairs) (h, a) =
    append-IsFree ends (piece p) (b'&' ∷ joined (q ∷ pairs)) (piece-IsFree p h).1 (
      append-IsFree ends (b'&' ∷ []) (joined (q ∷ pairs)) (lacks_all-IsFree ends (b'&' ∷ []) refl)
        (joined-IsFree (q ∷ pairs) a))

unfoldable pub pieces : List (Text × Text) → List Text
pieces [] = []
pieces (p ∷ pairs) = piece p ∷ pieces pairs

pub split-joined :
    (p : Text × Text) (pairs : List (Text × Text))
    → ArePairs (p ∷ pairs)
    → split b'&' (joined (p ∷ pairs)) ≡ pieces (p ∷ pairs)
unfolding pieces
split-joined p [] (h, a) = split_without b'&' (piece p) (piece-IsFree p h).0
split-joined p (q ∷ pairs) (h, a) =
    rw
      (
        split-append b'&' (piece p) (joined (q ∷ pairs)),
        split_without b'&' (piece p) (piece-IsFree p h).0,
        split-joined q pairs a,
      )
      refl

unfoldable pub add_all : Builder → List (Text × Text) → Builder
add_all b [] = b
add_all b ((name, value) ∷ pairs) = add_all (add_encoded_query_parameter b name value) pairs

add_parameter-piece :
    (b : Builder) (name value : Text)
    → IsWithout b'=' name
    → length (name ++ (b'=' ∷ value)) < npos
    → add_parameter b (name ++ (b'=' ∷ value)) ≡ some (add_encoded_query_parameter b name value)
unfolding add_parameter
add_parameter-piece b name value w short =
    let s = name ++ (b'=' ∷ value) in
    let sum = length-append name (b'=' ∷ value) in
    let sum' = length-append name (b'=' ∷ []) in
    let at = find_at b'=' s name value refl w in
    let there : (length name == npos) ≡ false = ground arith in
    let behind : add_size (length name) 1 ≡ length (name ++ (b'=' ∷ [])) = ground arith in
    let front = substr_at s [] name (b'=' ∷ value) 0 (length name) refl refl refl in
    let back =
      substr_behind s (name ++ (b'=' ∷ [])) value (add_size (length name) 1)
        (sym (append_assoc name (b'=' ∷ []) value)) behind short in
    rw (at, there, front, back) refl

joined_lengths :
    (p : Text × Text) (pairs : List (Text × Text))
    → (length (piece p) ≤ length (joined (p ∷ pairs)))
      × (length (joined pairs) ≤ length (joined (p ∷ pairs)))
joined_lengths p [] = (omega arith, omega arith)
joined_lengths p (q ∷ pairs) =
    let sum = length-append (piece p) (b'&' ∷ joined (q ∷ pairs)) in (omega arith, omega arith)

pub add_parameters-pieces :
    (b : Builder) (pairs : List (Text × Text)) (k : Builder → Parsed)
    → ArePairs pairs
    → length (joined pairs) < npos
    → add_parameters b (pieces pairs) k ≡ k (add_all b pairs)
unfolding add_parameters pieces add_all
add_parameters-pieces b [] k a short = refl
add_parameters-pieces b ((name, value) ∷ pairs) k ((full, equals, free, free'), a) short =
    let (small, less) = joined_lengths (name, value) pairs in
    rw (not_empty name b'=' value, add_parameter-piece b name value equals (omega arith))
      (add_parameters-pieces (add_encoded_query_parameter b name value) pairs k a (omega arith))
