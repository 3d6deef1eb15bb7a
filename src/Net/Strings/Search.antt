-- ===== src/Net/Strings/Search.antt =====
-- Searches in a string, and the parts that `substr` cuts out.
use nbsdk.Prelude.{
  ℕ, suc, ◌<◌, Bool, true, false, not, ◌&&◌, none, some, List, [], ◌∷◌, ◌++◌, ◌≡◌, refl, sym, ap,
  subst, ◌∙◌, Text, arith, ◌==◌, ltb, length, take_all, take-append, drop-append, length-append,
}
use nbsdk.Net.Strings.{
  index_where, last_index_where, find, npos, find_first_not_of, find_last_not_of, substr,
  erase_front, erase_from, add_size,
}

-- No byte of it is `c`.
abbrev pub IsWithout : ℕ → Text → Type 0
IsWithout c [] = Unit
IsWithout c (d ∷ s) = ((d == c) ≡ false) × IsWithout c s

abbrev pub AreWithout : ℕ → List Text → Type 0
AreWithout c [] = Unit
AreWithout c (s ∷ segments) = IsWithout c s × AreWithout c segments

pub append-IsWithout : (c : ℕ) (s t : Text) → IsWithout c s → IsWithout c t → IsWithout c (s ++ t)
append-IsWithout c [] t v w = w
append-IsWithout c (d ∷ s) t (e, v) w = (e, append-IsWithout c s t v w)

index_nothing : (c : ℕ) (s : Text) → IsWithout c s → index_where (λ d. d == c) s ≡ none
unfolding index_where
index_nothing c [] w = refl
index_nothing c (d ∷ s) (e, w) = rw (e, index_nothing c s w) refl

pub index-append :
    (c : ℕ) (s t : Text)
    → IsWithout c s
    → index_where (λ d. d == c) (s ++ (c ∷ t)) ≡ some (length s)
unfolding index_where
index-append c [] t w = let same : (c == c) ≡ true = ground arith in rw same refl
index-append c (d ∷ s) t (e, w) = rw (e, index-append c s t w) refl

pub find_nothing : (c : ℕ) (s : Text) → IsWithout c s → find s c ≡ npos
unfolding find
find_nothing c s w = rw (index_nothing c s w) refl

pub find-append : (c : ℕ) (s t : Text) → IsWithout c s → find (s ++ (c ∷ t)) c ≡ length s
unfolding find
find-append c s t w = rw (index-append c s t w) refl

pub front_stays :
    (c d : ℕ) (s : Text)
    → (d == c) ≡ false
    → erase_front (d ∷ s) (find_first_not_of (d ∷ s) c) ≡ d ∷ s
unfolding find_first_not_of index_where
front_stays c d s e = rw e refl

last-index :
    (c d : ℕ) (s : Text)
    → IsWithout c (d ∷ s)
    → last_index_where (λ x. not (x == c)) (d ∷ s) ≡ some (length s)
unfolding last_index_where
last-index c d [] (e, w) = rw e refl
last-index c d (x ∷ s) (e, w) = rw (last-index c x s w) refl

pub back_stays :
    (c d : ℕ) (s : Text)
    → IsWithout c (d ∷ s)
    → length (d ∷ s) < npos
    → erase_from (d ∷ s) (add_size (find_last_not_of (d ∷ s) c) 1) ≡ d ∷ s
unfolding find_last_not_of
back_stays c d s w short =
    let at : add_size (length s) 1 ≡ suc (length s) = ground arith in
    rw (last-index c d s w, at) (take_all (suc (length s)) (d ∷ s) (omega arith))

-- What stands behind a part, and a part that stands between two others.
pub substr_rest : (s t : Text) → length (s ++ t) < npos → substr (s ++ t) (length s) npos ≡ some t
unfolding substr
substr_rest s t short =
    let sum = length-append s t in
    let inside : ltb (length (s ++ t)) (length s) ≡ false = ground arith in
    let cut = drop-append (length s) s t (omega arith) in
    rw (inside, cut) (ap some (take_all npos t (omega arith)))

pub substr_part : (s t u : Text) → substr (s ++ (t ++ u)) (length s) (length t) ≡ some t
unfolding substr
substr_part s t u =
    let sum = length-append s (t ++ u) in
    let more = length-append t u in
    let inside : ltb (length (s ++ (t ++ u))) (length s) ≡ false = ground arith in
    let cut = drop-append (length s) s (t ++ u) (omega arith) in
    rw (inside, cut) (ap some (take-append (length t) t u (omega arith)))

-- The same of a text that is known to have these parts.
pub find_at : (c : ℕ) (x s t : Text) → x ≡ s ++ (c ∷ t) → IsWithout c s → find x c ≡ length s
find_at c x s t e w = ap (λ y. find y c) e ∙ find-append c s t w

pub substr_at :
    (x s t u : Text) (position count : ℕ)
    → x ≡ s ++ (t ++ u)
    → position ≡ length s
    → count ≡ length t
    → substr x position count ≡ some t
substr_at x s t u position count e p n =
    subst (λ y. substr y position count ≡ some t) (sym e)
      (subst (λ i. substr (s ++ (t ++ u)) i count ≡ some t) (sym p)
        (subst (λ k. substr (s ++ (t ++ u)) (length s) k ≡ some t) (sym n) (substr_part s t u)))

pub substr_behind :
    (x s t : Text) (position : ℕ)
    → x ≡ s ++ t
    → position ≡ length s
    → length x < npos
    → substr x position npos ≡ some t
substr_behind x s t position e p short =
    subst (λ y. substr y position npos ≡ some t) (sym e)
      (subst (λ i. substr (s ++ t) i npos ≡ some t) (sym p)
        (substr_rest s t (subst (λ y. length y < npos) e short)))

-- None of the bytes is in it.
abbrev pub IsFree : List ℕ → Text → Type 0
IsFree [] s = Unit
IsFree (c ∷ cs) s = IsWithout c s × IsFree cs s

pub append-IsFree : (cs : List ℕ) (s t : Text) → IsFree cs s → IsFree cs t → IsFree cs (s ++ t)
append-IsFree [] s t v w = tt
append-IsFree (c ∷ cs) s t (e, v) (h, w) = (append-IsWithout c s t e h, append-IsFree cs s t v w)

-- The two as tests, for texts that are given.
abbrev pub lacks : ℕ → Text → Bool
lacks c [] = true
lacks c (d ∷ s) = not (d == c) && lacks c s

abbrev pub lacks_all : List ℕ → Text → Bool
lacks_all [] s = true
lacks_all (c ∷ cs) s = lacks c s && lacks_all cs s

lacks-IsWithout : (c : ℕ) (s : Text) → lacks c s ≡ true → IsWithout c s
lacks-IsWithout c [] e = tt
lacks-IsWithout c (d ∷ s) e = (ground arith, lacks-IsWithout c s (ground arith))

pub lacks_all-IsFree : (cs : List ℕ) (s : Text) → lacks_all cs s ≡ true → IsFree cs s
lacks_all-IsFree [] s e = tt
lacks_all-IsFree (c ∷ cs) s e =
    (lacks-IsWithout c s (ground arith), lacks_all-IsFree cs s (ground arith))
