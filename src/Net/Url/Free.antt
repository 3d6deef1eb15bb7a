-- ===== src/Net/Url/Free.antt =====
-- The parts of a text that hold none of the bytes at which `HttpUrl::Builder::Parse` cuts.
use nbsdk.Prelude.{
  ℕ, Bool, true, false, List, [], ◌∷◌, ◌++◌, ◌≡◌, refl, sym, subst, Text, arith, length,
  append_assoc,
}
use nbsdk.Net.Strings.{codes, show_ℕ, is_digit}
use nbsdk.Net.Strings.Search.{IsFree, append-IsFree, lacks_all-IsFree}
use nbsdk.Net.Strings.Decimal.{show_ℕ-IsWithout}
use nbsdk.Net.Url.{http, https, shown_segments, shown_query, shown_params, shown_fragment}
use nbsdk.Net.Url.Parse.{blanks}
use nbsdk.Net.Url.Normal.{IsEntry}
use nbsdk.Net.Url.Front.{scheme_of, marks}
use nbsdk.Net.Params.Maps.{All}
use nbsdk.Net.Url.Pieces.{Params, pairs_of, ArePairs, joined, joined-IsFree, shown_params-joined}
use nbsdk.Net.Url.Tail.{tail_of}

abbrev pub AreFree : List ℕ → List Text → Type 0
AreFree cs [] = Unit
AreFree cs (s ∷ segments) = IsFree cs s × AreFree cs segments

pub shown_segments-IsFree :
    (cs : List ℕ) (segments : List Text)
    → IsFree cs (b'/' ∷ [])
    → IsFree cs []
    → AreFree cs segments
    → IsFree cs (shown_segments segments)
unfolding shown_segments
shown_segments-IsFree cs [] slash nothing f = nothing
shown_segments-IsFree cs (s ∷ segments) slash nothing (e, f) =
    append-IsFree cs (b'/' ∷ []) (s ++ shown_segments segments) slash (
      append-IsFree cs s (shown_segments segments) e
        (shown_segments-IsFree cs segments slash nothing f))

pub scheme_of-IsFree : (secure : Bool) → IsFree marks (scheme_of secure ++ codes "://")
scheme_of-IsFree true = lacks_all-IsFree marks (https ++ codes "://") refl
scheme_of-IsFree false = lacks_all-IsFree marks (http ++ codes "://") refl

colon_port-IsFree : (port : ℕ) → IsFree marks (b':' ∷ show_ℕ port)
colon_port-IsFree port =
    let free = λ (c : ℕ) (d : is_digit c ≡ false). show_ℕ-IsWithout c port d in
    (
      (refl, free b'?' refl),
      (
        (refl, free b'#' refl),
        (
          (refl, free b' ' refl),
          (
            (refl, free 9 refl),
            ((refl, free 10 refl), ((refl, free 12 refl), ((refl, free 13 refl), tt))),
          ),
        ),
      ),
    )

-- Host, port and path.
abbrev pub middle : Text → ℕ → Text → Text
middle host port path = host ++ (b':' ∷ (show_ℕ port ++ (b'/' ∷ path)))

pub text-IsFree :
    (secure : Bool) (host : Text) (port : ℕ) (path : Text)
    → IsFree marks host
    → IsFree marks path
    → IsFree marks (scheme_of secure ++ (codes "://" ++ middle host port path))
text-IsFree secure host port path free path_free =
    subst (IsFree marks) (append_assoc (scheme_of secure) (codes "://") (middle host port path)) (
      append-IsFree marks (scheme_of secure ++ codes "://") _ (scheme_of-IsFree secure) (
        append-IsFree marks host _ free (
          append-IsFree marks (b':' ∷ show_ℕ port) _ (colon_port-IsFree port) (
            append-IsFree marks (b'/' ∷ []) path (lacks_all-IsFree marks (b'/' ∷ []) refl)
              path_free))))

shown_fragment-IsFree :
    (fragment : Text) → IsFree blanks fragment → IsFree blanks (shown_fragment fragment)
unfolding shown_fragment
shown_fragment-IsFree [] f = f
shown_fragment-IsFree (c ∷ fragment) f =
    append-IsFree blanks (b'#' ∷ []) (c ∷ fragment) (lacks_all-IsFree blanks (b'#' ∷ []) refl) f

pub tail_of-IsFree :
    (params : Params) (fragment : Text)
    → All IsEntry params
    → ArePairs (pairs_of params)
    → IsFree blanks fragment
    → IsFree blanks (tail_of params fragment)
unfolding shown_query
tail_of-IsFree [] fragment a h f = shown_fragment-IsFree fragment f
tail_of-IsFree (p ∷ params) fragment a h f =
    let all = p ∷ params in
    let query : IsFree blanks (joined (pairs_of all)) = (joined-IsFree (pairs_of all) h).1 in
    append-IsFree blanks (b'?' ∷ shown_params (length all) 0 all) (shown_fragment fragment)
      (append-IsFree blanks (b'?' ∷ []) _ (lacks_all-IsFree blanks (b'?' ∷ []) refl) (
        subst (IsFree blanks) (sym (shown_params-joined (length all) 0 all (omega arith) a)) query))
      (shown_fragment-IsFree fragment f)
