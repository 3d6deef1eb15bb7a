-- ===== src/Net/Url/Segments.antt =====
-- `HttpUrl::Builder::AddEncodedPathSegments`: how the parts of a path are added.
use nbsdk.Prelude.{
  ℕ, true, List, [], ◌∷◌, ◌++◌, ◌≡◌, refl, sym, ap, ◌∙◌, Text, arith, inl, inr, Bool-cases,
  if◌then◌else◌, ◌==◌, append-nil, append_assoc,
}
use nbsdk.Net.Strings.{is_empty, split}
use nbsdk.Net.Strings.Search.{IsWithout, AreWithout}
use nbsdk.Net.Url.{Builder, push, push_all, add_encoded_path_segments, shown_segments}
use nbsdk.Net.Url.Normal.{AreSegments, IsSegment}

split_cons : (c : ℕ) (s : Text) → (p : Text) × (ps : List Text) × (split c s ≡ p ∷ ps)
unfolding split
split_cons c [] = ([], [], refl)
split_cons c (d ∷ s) =
    let (p, ps, e) = split_cons c s in
    elim (Bool-cases (d == c)) [
      | inl same ↦ ([], p ∷ ps, rw (e, same) refl)
      | inr differ ↦ (d ∷ p, ps, rw (e, differ) refl)
    ]

pub split-append : (c : ℕ) (s t : Text) → split c (s ++ (c ∷ t)) ≡ split c s ++ split c t
unfolding split
split-append c [] t =
    let (p, ps, e) = split_cons c t in
    let same : (c == c) ≡ true = ground arith in rw (e, same) refl
split-append c (d ∷ s) t =
    let (p, ps, e) = split_cons c s in
    let rest = split-append c s t in
    elim (Bool-cases (d == c)) [
      | inl same ↦ rw (rest, e, same) refl
      | inr differ ↦ rw (rest, e, differ) refl
    ]

push_all-append :
    (b : Builder) (xs ys : List Text) → push_all b (xs ++ ys) ≡ push_all (push_all b xs) ys
unfolding push_all
push_all-append b [] ys = refl
push_all-append b (x ∷ xs) ys = push_all-append (if is_empty x then b else push b x) xs ys

add_all : (b : Builder) (s : Text) → add_encoded_path_segments b s ≡ push_all b (split b'/' s)
unfolding add_encoded_path_segments push_all split
add_all b [] = refl
add_all b (c ∷ s) = refl

-- A path that is added in one piece, its `.` and `..` included, is added part by part.
pub add_encoded_path_segments-append :
    (b : Builder) (s t : Text)
    → add_encoded_path_segments b (s ++ (b'/' ∷ t))
      ≡ add_encoded_path_segments (add_encoded_path_segments b s) t
add_encoded_path_segments-append b s t =
    rw
      (
        add_all b (s ++ (b'/' ∷ t)),
        add_all b s,
        add_all (push_all b (split b'/' s)) t,
        split-append b'/' s t,
      )
      (push_all-append b (split b'/' s) (split b'/' t))

pub split_without : (c : ℕ) (s : Text) → IsWithout c s → split c s ≡ s ∷ []
unfolding split
split_without c [] w = refl
split_without c (d ∷ s) (differ, w) = rw (split_without c s w, differ) refl

push-IsSegment :
    (b : Builder) (s : Text)
    → IsSegment s
    → push b s ≡ record b { encoded_path_segments = b.encoded_path_segments ++ (s ∷ []) }
unfolding push
push-IsSegment b s (e, one, two) = rw (e, one, two) refl

pub add_segment :
    (b : Builder) (s : Text)
    → IsSegment s
    → IsWithout b'/' s
    → add_encoded_path_segments b s
      ≡ record b { encoded_path_segments = b.encoded_path_segments ++ (s ∷ []) }
unfolding push_all
add_segment b s i w = rw (add_all b s, split_without b'/' s w, i.0) (push-IsSegment b s i)

pub add_empty : (b : Builder) → add_encoded_path_segments b [] ≡ b
unfolding add_encoded_path_segments
add_empty b = refl

pub add_slash :
    (b : Builder) (s : Text)
    → add_encoded_path_segments b (b'/' ∷ s) ≡ add_encoded_path_segments b s
add_slash b s =
    add_encoded_path_segments-append b [] s ∙ ap (λ x. add_encoded_path_segments x s) (add_empty b)

add_before :
    (b : Builder) (s : Text) (segments : List Text)
    → add_encoded_path_segments b (s ++ shown_segments segments)
      ≡ add_encoded_path_segments (add_encoded_path_segments b s) (shown_segments segments)
unfolding shown_segments
add_before b s [] =
    ap (add_encoded_path_segments b) (append-nil s)
    ∙ sym (add_empty (add_encoded_path_segments b s))
add_before b s (t ∷ segments) =
    add_encoded_path_segments-append b s (t ++ shown_segments segments)
    ∙ sym (add_slash (add_encoded_path_segments b s) (t ++ shown_segments segments))

-- The path as `ToString` writes it is read back as the segments that were written, behind those that
-- are there, where each is a segment that holds no `/`.
pub add_encoded_path_segments-shown_segments :
    (b : Builder) (segments : List Text)
    → AreSegments segments
    → AreWithout b'/' segments
    → add_encoded_path_segments b (shown_segments segments)
      ≡ record b { encoded_path_segments = b.encoded_path_segments ++ segments }
unfolding shown_segments
add_encoded_path_segments-shown_segments b [] a w =
    add_empty b
    ∙ ap (λ xs. record b { encoded_path_segments = xs }) (sym (append-nil b.encoded_path_segments))
add_encoded_path_segments-shown_segments b (s ∷ segments) (i, a) (v, w) =
    let b' = record b { encoded_path_segments = b.encoded_path_segments ++ (s ∷ []) } in
    add_slash b (s ++ shown_segments segments)
    ∙ (add_before b s segments
        ∙ (ap (λ x. add_encoded_path_segments x (shown_segments segments)) (add_segment b s i v)
            ∙ (add_encoded_path_segments-shown_segments b' segments a w
                ∙ ap (λ xs. record b { encoded_path_segments = xs })
                    (append_assoc b.encoded_path_segments (s ∷ []) segments))))
