-- ===== src/Math/GccPhat/Peak.antt =====
-- The peak that `GCCPhat::Execute` finds: `std::max_element` over the window.
use nbsdk.Prelude.{
  ℕ, zero, suc, ◌+◌, ◌-◌, ◌*◌, ◌/◌, ◌%◌, ◌≤◌, ◌<◌, Bool, true, false, Option, some, List, [], ◌∷◌,
  ◌≡◌, ◌⊎◌, inl, inr, refl, subst, ltb, length-drop, get_elem?-append, get_elem?-drop,
  get_elem?-take, get_elem?-lt, length-take, length-append, ap, sym, ◌∙◌, arith, Bool-cases, length,
  take, drop, get_elem?, some_path,
}
use native.Mathlib.Nat.{mod-eq_of_lt, mod-eq-sub-mod}
use nbsdk.Prelude.Int.{pos}
use nbsdk.Math.GccPhat.{half_of, minus, window, shifted, max_from, max_index, peak_lag}
use nbsdk.Math.GccPhat.Window.{fitting, corrected-window}

-- `<` orders doubles that are not NaN.
pub record IsOrder {F : Type 0} (lt : F → F → Bool) : Type 0 where
  pub irrefl : (a : F) → lt a a ≡ false
  pub trans : (a b c : F) → lt a b ≡ true → lt b c ≡ true → lt a c ≡ true
  pub negative_trans : (a b c : F) → lt a b ≡ false → lt b c ≡ false → lt a c ≡ false

module _ {F : Type 0} (lt : F → F → Bool) where
  abbrev pub NoneAbove : F → List F → Type 0
  NoneAbove y xs = (l : ℕ) (x : F) → get_elem? xs l ≡ some x → lt y x ≡ false

  abbrev pub AllBelow : F → List F → ℕ → Type 0
  AllBelow y xs j = (l : ℕ) (x : F) → get_elem? xs l ≡ some x → l < j → lt x y ≡ true

module _ {F : Type 0} {lt : F → F → Bool} (order : IsOrder lt) where
  open order use {irrefl, trans, negative_trans}

  asymm : (a b : F) → lt a b ≡ true → lt b a ≡ false
  asymm a b h = elim (Bool-cases (lt b a)) [
    | inl back ↦ cc (irrefl a, trans a b a h back)
    | inr not_back ↦ not_back
  ]

  below_of_above : (a b c : F) → lt a b ≡ false → lt a c ≡ true → lt b c ≡ true
  below_of_above a b c h k = elim (Bool-cases (lt b c)) [
    | inl below ↦ below
    | inr not_below ↦ cc (negative_trans a b c h not_below)
  ]

  -- The loop stays where it is, or ends at the first of the largest.
  abbrev Found : F → ℕ → ℕ → List F → ℕ → Type 0
  Found best at i xs k =
      ((k ≡ at) × NoneAbove lt best xs)
      ⊎ ((j : ℕ) × (y : F) × (k ≡ i + j)
          × (get_elem? xs j ≡ some y)
          × (lt best y ≡ true)
          × NoneAbove lt y xs
          × AllBelow lt y xs j)

  NoneAbove-cons :
      (y x : F) (xs : List F) → lt y x ≡ false → NoneAbove lt y xs → NoneAbove lt y (x ∷ xs)
  NoneAbove-cons y x xs h k zero z e = subst (λ z. lt y z ≡ false) (some_path e) h
  NoneAbove-cons y x xs h k (suc l) z e = k l z e

  AllBelow-cons :
      (y x : F) (xs : List F) (j : ℕ)
      → lt x y ≡ true
      → AllBelow lt y xs j
      → AllBelow lt y (x ∷ xs) (suc j)
  AllBelow-cons y x xs j h k zero z e b = subst (λ z. lt z y ≡ true) (some_path e) h
  AllBelow-cons y x xs j h k (suc l) z e b = k l z e (omega arith)

  Found-cons_larger :
      (best x : F) (i k : ℕ) (at : ℕ) (xs : List F)
      → lt best x ≡ true
      → Found x i (suc i) xs k
      → Found best at i (x ∷ xs) k
  Found-cons_larger best x i k at xs h (inl (here, above)) = inr (
    0,
    x,
    omega (arith, here),
    refl,
    h,
    NoneAbove-cons x x xs (irrefl x) above,
    λ l z e b. absurd (omega arith),
  )
  Found-cons_larger best x i k at xs h (inr (j, y, there, found, larger, above, below)) = inr (
    suc j,
    y,
    omega (arith, there),
    found,
    trans best x y h larger,
    NoneAbove-cons y x xs (asymm x y larger) above,
    AllBelow-cons y x xs j larger below,
  )

  Found-cons_kept :
      (best x : F) (i k : ℕ) (at : ℕ) (xs : List F)
      → lt best x ≡ false
      → Found best at (suc i) xs k
      → Found best at i (x ∷ xs) k
  Found-cons_kept best x i k at xs h (inl (here, above)) =
      inl (here, NoneAbove-cons best x xs h above)
  Found-cons_kept best x i k at xs h (inr (j, y, there, found, larger, above, below)) = inr (
    suc j,
    y,
    omega (arith, there),
    found,
    larger,
    NoneAbove-cons y x xs (negative_trans y best x (asymm best y larger) h) above,
    AllBelow-cons y x xs j (below_of_above best x y h larger) below,
  )

  max_from-Found :
      (best : F) (at i : ℕ) (xs : List F) → Found best at i xs (max_from lt best at i xs)
  unfolding max_from
  max_from-Found best at i [] = inl (refl, λ l x e. cc)
  max_from-Found best at i (x ∷ xs) = elim (Bool-cases (lt best x)) [
    | inl larger ↦
        rw larger (Found-cons_larger best x i _ at xs larger (max_from-Found x i (suc i) xs))
    | inr kept ↦ rw kept (Found-cons_kept best x i _ at xs kept (max_from-Found best at (suc i) xs))
  ]

  -- The index that `std::max_element` finds.
  pub max_index_lem :
      (xs : List F)
      → 1 ≤ length xs
      → (y : F) × (get_elem? xs (max_index lt xs) ≡ some y)
        × NoneAbove lt y xs
        × AllBelow lt y xs (max_index lt xs)
  unfolding max_index
  max_index_lem [] h = absurd (omega arith)
  max_index_lem (x ∷ xs) h = elim (max_from-Found x 0 1 xs) [
    | inl (here, above) ↦ (
      x,
      rw here refl,
      NoneAbove-cons x x xs (irrefl x) above,
      rw here (λ l z e b. absurd (omega arith)),
    )
    | inr (j, y, there, found, larger, above, below) ↦
        let there' : max_from lt x 0 1 xs ≡ suc j = omega (arith, there) in
        (
          y,
          rw there' found,
          NoneAbove-cons y x xs (asymm x y larger) above,
          rw there' (AllBelow-cons y x xs j larger below),
        )
  ]

-- A value of the correlation as the search sees it: its index is what the middle is to it, all modulo
-- the size.
module _ {F : Type 0} where
  get_elem?-shifted :
      (c : List F) (l : ℕ)
      → l < length c
      → get_elem? (shifted c) l ≡ get_elem? c ((half_of (length c) + l) % length c)
  unfolding shifted
  get_elem?-shifted c l h =
      let half = half_of (length c) in
      rw (get_elem?-append (drop half c) (take half c) l)
        (elim (Bool-cases (ltb l (length (drop half c)))) [
          | inl front ↦
              let before : half + l < length c = ground (arith, length-drop half c) in
              rw front (get_elem?-drop half c l ∙ ap (get_elem? c) (sym (mod-eq_of_lt before)))
          | inr back ↦
              let past : length c ≤ half + l = ground (arith, length-drop half c) in
              let same : l - length (drop half c) ≡ half + l - length c =
                ground (arith, length-drop half c) in
              rw (back, same)
                (get_elem?-take half c (half + l - length c) (omega arith)
                  ∙ ap (get_elem? c) (sym (mod-eq-sub-mod past ∙ mod-eq_of_lt (omega arith))))
        ])

  length-shifted : (c : List F) → length (shifted c) ≡ length c
  unfolding shifted
  length-shifted c =
      let half = half_of (length c) in
      omega
        (arith, length-append (drop half c) (take half c), length-drop half c, length-take half c)

  -- The value of the correlation that the search sees at a place of the window.
  abbrev pub seen : List F → ℕ → ℕ → Option F
  seen c m l = get_elem? c ((half_of (length c) + (half_of (length c) - m + l)) % length c)

  get_elem?-window :
      (c : List F) (m l : ℕ)
      → m ≤ half_of (length c)
      → half_of (length c) + m < length c
      → l < 2 * m + 1
      → get_elem? (take (2 * m + 1) (drop (half_of (length c) - m) (shifted c))) l ≡ seen c m l
  get_elem?-window c m l half_room behind inside =
      let half = half_of (length c) in
      get_elem?-take (2 * m + 1) (drop (half - m) (shifted c)) l inside
      ∙ get_elem?-drop (half - m) (shifted c) l
      ∙ get_elem?-shifted c (half - m + l) (omega arith)

  pub window_of : List F → ℕ → List F
  window_of c m = take (2 * m + 1) (drop (half_of (length c) - m) (shifted c))

  length-window_of :
      (c : List F) (m : ℕ)
      → m ≤ half_of (length c)
      → half_of (length c) + m < length c
      → length (window_of c m) ≡ 2 * m + 1
  unfolding window_of
  length-window_of c m half_room behind = omega (
    arith,
    length-shifted c,
    length-drop (half_of (length c) - m) (shifted c),
    length-take (2 * m + 1) (drop (half_of (length c) - m) (shifted c)),
  )

  pub peak_lag-window_of :
      (lt : F → F → Bool) (c : List F) (m : ℕ)
      → 2 ≤ length c
      → peak_lag lt c (pos m)
        ≡ some (minus (max_index lt (window_of c (fitting (length c) m))) (fitting (length c) m))
  unfolding peak_lag window window_of
  peak_lag-window_of lt c m h =
      let fit = fitting (length c) m in
      let same : (2 * fit + 1 - 1) / 2 ≡ fit = omega arith in
      rw ((corrected-window (length c) m h).0, peak_lag) (rw same refl)

module _ {F : Type 0} {lt : F → F → Bool} (order : IsOrder lt) where
  -- For at least two values and a margin that is not negative, with doubles that are in order: the lag
  -- that is returned is how far a value of the correlation is behind the middle, and no value that is as
  -- near to the middle as the corrected margin allows is larger, and the ones before it are smaller.
  pub peak_lag_lem :
      (c : List F) (m l : ℕ) (x : F)
      → 2 ≤ length c
      → l ≤ 2 * fitting (length c) m
      → seen c (fitting (length c) m) l ≡ some x
      → (at : ℕ) × (y : F) × (peak_lag lt c (pos m) ≡ some (minus at (fitting (length c) m)))
        × (at ≤ 2 * fitting (length c) m)
        × (seen c (fitting (length c) m) at ≡ some y)
        × (lt y x ≡ false)
        × ((at ≤ l) ⊎ (lt x y ≡ true))
  unfolding window_of
  peak_lag_lem c m l x h b e =
      let fit = fitting (length c) m in
      let long : length (window_of c fit) ≡ 2 * fit + 1 =
        length-window_of c fit (omega arith) (omega arith) in
      let (y, found, above, below) = max_index_lem order (window_of c fit) (omega arith) in
      let at = max_index lt (window_of c fit) in
      let inside : at < 2 * fit + 1 = omega (arith, get_elem?-lt (window_of c fit) at found) in
      let sees =
        λ (l : ℕ) (b : l < 2 * fit + 1). get_elem?-window c fit l (omega arith) (omega arith) b in
      let found' = sees l (omega arith) ∙ e in
      (
        at,
        y,
        peak_lag-window_of lt c m h,
        omega arith,
        sym (sees at inside) ∙ found,
        above l x found',
        elim (Bool-cases (ltb l at)) [
          | inl before ↦ inr (below l x found' (ground arith))
          | inr behind ↦ inl (ground arith)
        ],
      )
