-- ===== src/Net/Params/Maps.antt =====
-- `std::map<std::string, …>`: its order, what it holds at a key, and what holds of its entries.
use nbsdk.Prelude.{
  ap, ◌∙◌, true, none, some, List, [], ◌∷◌, ◌≡◌, refl, sym, Text, arith, inl, inr, Bool-cases,
  subst, if◌then◌else◌, ◌>>=◌, some_path,
}
use nbsdk.Net.Strings.{text_eq, text_lt}
use nbsdk.Net.Strings.Order.{
  text_eq_refl, text_eq_path, text_lt_irrefl, text_lt_connex, text_lt_trans,
}
use nbsdk.Net.Params.{find, emplace, update, erase}

module _ {V : Type 0} where
  -- `x` comes before each key.
  abbrev pub IsFirst : Text → List (Text × V) → Type 0
  IsFirst x [] = Unit
  IsFirst x ((y, v) ∷ m) = (text_lt x y ≡ true) × IsFirst x m

  abbrev pub IsOrdered : List (Text × V) → Type 0
  IsOrdered [] = Unit
  IsOrdered ((x, v) ∷ m) = IsFirst x m × IsOrdered m

  IsFirst-trans :
      (x y : Text) (m : List (Text × V)) → text_lt x y ≡ true → IsFirst y m → IsFirst x m
  IsFirst-trans x y [] l b = tt
  IsFirst-trans x y ((z, v) ∷ m) l (h, b) = (text_lt_trans x y z l h, IsFirst-trans x y m l b)

  IsFirst-find : (x : Text) (m : List (Text × V)) → IsFirst x m → find x m ≡ none
  unfolding find
  IsFirst-find x [] b = refl
  IsFirst-find x ((y, v) ∷ m) (l, b) =
      let rest = IsFirst-find x m b in
      let same = text_eq_path x y in let irrefl = text_lt_irrefl x in grind arith

  emplace-IsFirst :
      (z k : Text) (v : V) (m : List (Text × V))
      → text_lt z k ≡ true
      → IsFirst z m
      → IsFirst z (emplace k v m)
  unfolding emplace
  emplace-IsFirst z k v [] l b = (l, tt)
  emplace-IsFirst z k v ((y, w) ∷ m) l (h, b) = elim (Bool-cases (text_eq k y)) [
    | inl e ↦ rw e (h, b)
    | inr e ↦ elim (Bool-cases (text_lt k y)) [
      | inl e' ↦ rw (e, e') (l, (h, b))
      | inr e' ↦ rw (e, e') (h, emplace-IsFirst z k v m l b)
    ]
  ]

  pub emplace-IsOrdered :
      (k : Text) (v : V) (m : List (Text × V)) → IsOrdered m → IsOrdered (emplace k v m)
  unfolding emplace
  emplace-IsOrdered k v [] s = (tt, tt)
  emplace-IsOrdered k v ((y, w) ∷ m) (b, s) = elim (Bool-cases (text_eq k y)) [
    | inl e ↦ rw e (b, s)
    | inr e ↦ elim (Bool-cases (text_lt k y)) [
      | inl l ↦ rw (e, l) ((l, IsFirst-trans k y m l b), (b, s))
      | inr l ↦
          rw (e, l) (emplace-IsFirst y k v m (text_lt_connex k y e l) b, emplace-IsOrdered k v m s)
    ]
  ]

  update-IsFirst :
      (z k : Text) (f : V → V) (m : List (Text × V)) → IsFirst z m → IsFirst z (update k f m)
  unfolding update
  update-IsFirst z k f [] b = tt
  update-IsFirst z k f ((y, w) ∷ m) (l, b) = elim (Bool-cases (text_eq k y)) [
    | inl e ↦ rw e (l, b)
    | inr e ↦ rw e (l, update-IsFirst z k f m b)
  ]

  pub update-IsOrdered :
      (k : Text) (f : V → V) (m : List (Text × V)) → IsOrdered m → IsOrdered (update k f m)
  unfolding update
  update-IsOrdered k f [] s = tt
  update-IsOrdered k f ((y, w) ∷ m) (b, s) = elim (Bool-cases (text_eq k y)) [
    | inl e ↦ rw e (b, s)
    | inr e ↦ rw e (update-IsFirst y k f m b, update-IsOrdered k f m s)
  ]

  erase-IsFirst : (z k : Text) (m : List (Text × V)) → IsFirst z m → IsFirst z (erase k m)
  unfolding erase
  erase-IsFirst z k [] b = tt
  erase-IsFirst z k ((y, w) ∷ m) (l, b) = elim (Bool-cases (text_eq k y)) [
    | inl e ↦ rw e b
    | inr e ↦ rw e (l, erase-IsFirst z k m b)
  ]

  pub erase-IsOrdered : (k : Text) (m : List (Text × V)) → IsOrdered m → IsOrdered (erase k m)
  unfolding erase
  erase-IsOrdered k [] s = tt
  erase-IsOrdered k ((y, w) ∷ m) (b, s) = elim (Bool-cases (text_eq k y)) [
    | inl e ↦ rw e s
    | inr e ↦ rw e (erase-IsFirst y k m b, erase-IsOrdered k m s)
  ]

  pub find-emplace :
      (j k : Text) (v : V) (m : List (Text × V))
      → find k m ≡ none
      → find j (emplace k v m) ≡ (if text_eq j k then some v else find j m)
  unfolding find emplace
  find-emplace j k v [] free = refl
  find-emplace j k v ((y, w) ∷ m) free =
      let rest = find-emplace j k v m in
      let same = text_eq_path j y in
      let same' = text_eq_path j k in let r = text_eq_refl k in grind arith

  none-some : {w : V} → none ≡ some w → ⊥
  none-some e = ground arith

  -- A name that is there keeps its value.
  pub emplace_there :
      (k : Text) (v w : V) (m : List (Text × V))
      → IsOrdered m
      → find k m ≡ some w
      → emplace k v m ≡ m
  unfolding find emplace
  emplace_there k v w [] s found = ground arith
  emplace_there k v w ((y, x) ∷ m) (b, s) found = elim (Bool-cases (text_eq k y)) [
    | inl e ↦ rw e refl
    | inr e ↦
        let later : find k m ≡ some w =
          subst (λ c. (if c then some x else find k m) ≡ some w) e found in
        elim (Bool-cases (text_lt k y)) [
          | inl l ↦ absurd (none-some (sym (IsFirst-find k m (IsFirst-trans k y m l b)) ∙ later))
          | inr l ↦ rw (e, l) (ap (λ t. (y, x) ∷ t) (emplace_there k v w m s later))
        ]
  ]

  pub find-update :
      (j k : Text) (f : V → V) (m : List (Text × V))
      → find j (update k f m) ≡ (if text_eq j k then (find j m >>= λ v. some (f v)) else find j m)
  unfolding find update
  find-update j k f [] = grind arith
  find-update j k f ((y, w) ∷ m) =
      let rest = find-update j k f m in
      let same = text_eq_path k y in
      let same' = text_eq_path j k in let r = text_eq_refl k in grind arith

  pub find-erase :
      (j k : Text) (m : List (Text × V))
      → IsOrdered m
      → find j (erase k m) ≡ (if text_eq j k then none else find j m)
  unfolding find erase
  find-erase j k [] s = grind arith
  find-erase j k ((y, w) ∷ m) (b, s) =
      let rest = find-erase j k m s in
      let gone = IsFirst-find y m b in
      let same = text_eq_path k y in
      let same' = text_eq_path j k in let r = text_eq_refl k in grind arith

  pub erase-update :
      (k : Text) (f : V → V) (m : List (Text × V)) → erase k (update k f m) ≡ erase k m
  unfolding erase update
  erase-update k f [] = refl
  erase-update k f ((y, w) ∷ m) = elim (Bool-cases (text_eq k y)) [
    | inl e ↦ rw (e, e) refl
    | inr e ↦ rw (e, e, erase-update k f m) refl
  ]

  module _ (P : Text → V → Type 0) where
    abbrev pub All : List (Text × V) → Type 0
    All [] = Unit
    All ((k, v) ∷ m) = P k v × All m

    pub All-emplace : (k : Text) (v : V) (m : List (Text × V)) → P k v → All m → All (emplace k v m)
    unfolding emplace
    All-emplace k v [] p a = (p, tt)
    All-emplace k v ((y, w) ∷ m) p (q, a) = elim (Bool-cases (text_eq k y)) [
      | inl e ↦ rw e (q, a)
      | inr e ↦ elim (Bool-cases (text_lt k y)) [
        | inl l ↦ rw (e, l) (p, (q, a))
        | inr l ↦ rw (e, l) (q, All-emplace k v m p a)
      ]
    ]

    -- Of the value at `k`, if there is one, the new value must be good.
    pub All-update :
        (k : Text) (f : V → V) (m : List (Text × V))
        → ((v : V) → find k m ≡ some v → P k v → P k (f v))
        → All m
        → All (update k f m)
    unfolding update find
    All-update k f [] h a = tt
    All-update k f ((y, w) ∷ m) h (q, a) = elim (Bool-cases (text_eq k y)) [
      | inl e ↦
          let y_is_k = sym (text_eq_path k y e) in
          rw e
            (subst (λ x. P x (f w)) (sym y_is_k) (h w (rw e refl) (subst (λ x. P x w) y_is_k q)), a)
      | inr e ↦ rw e (q, All-update k f m (λ v found. h v (rw e found)) a)
    ]

    pub All-erase : (k : Text) (m : List (Text × V)) → All m → All (erase k m)
    unfolding erase
    All-erase k [] a = tt
    All-erase k ((y, w) ∷ m) (q, a) = elim (Bool-cases (text_eq k y)) [
      | inl e ↦ rw e a
      | inr e ↦ rw e (q, All-erase k m a)
    ]

    pub All-find : (k : Text) (v : V) (m : List (Text × V)) → All m → find k m ≡ some v → P k v
    unfolding find
    All-find k v [] a e = ground arith
    All-find k v ((y, w) ∷ m) (q, a) e = elim (Bool-cases (text_eq k y)) [
      | inl same ↦
          let w_is_v : w ≡ v =
            some_path (subst (λ b. (if b then some w else find k m) ≡ some v) same e) in
          subst (P k) w_is_v (subst (λ x. P x w) (sym (text_eq_path k y same)) q)
      | inr differ ↦
          All-find k v m a (subst (λ b. (if b then some w else find k m) ≡ some v) differ e)
    ]
