-- ===== src/Prelude/Order.antt =====
-- `strings.Compare`, and sorting by it. Comparing the bytes of UTF-8 is comparing code points.
use Prim.Native.Char.{code}
use Prim.Native.Nat.{ℕ}
use Prim.Native.String.{String}
use mathlib.Core.Bool.{Bool, true, false}
use mathlib.Core.List.{List, [], ◌∷◌, map}
use mathlib.Core.Logic.{◌≢◌, inl, inr}
use mathlib.Core.Path.{◌≡◌, refl, sym, ap, ◌∙◌}
use native.Mathlib.Omega.{arith}
use text.Mathlib.TextEquality.{Char-path}
use package.ez_vpn_lego.Prelude.Lists.{All}
use package.ez_vpn_lego.Prelude.Tests.{Bool-cases, ltb, if◌then◌else◌}
use package.ez_vpn_lego.Prelude.Text.{codes}

-- The order of dictionaries.
unfoldable pub codes_lt : List ℕ → List ℕ → Bool
codes_lt xs [] = false
codes_lt [] (y ∷ ys) = true
codes_lt (x ∷ xs) (y ∷ ys) =
    let rest = codes_lt xs ys in if ltb x y then true else if ltb y x then false else rest

codes_lt-asymm : (xs ys : List ℕ) → codes_lt xs ys ≡ true → codes_lt ys xs ≡ false
unfolding codes_lt
codes_lt-asymm [] [] h = refl
codes_lt-asymm [] (y ∷ ys) h = refl
codes_lt-asymm (x ∷ xs) [] h = cc
codes_lt-asymm (x ∷ xs) (y ∷ ys) h = ground (arith, codes_lt-asymm xs ys)

codes_lt-total : (xs ys : List ℕ) → codes_lt xs ys ≡ false → codes_lt ys xs ≡ false → xs ≡ ys
unfolding codes_lt
codes_lt-total [] [] h k = refl
codes_lt-total [] (y ∷ ys) h k = cc
codes_lt-total (x ∷ xs) [] h k = cc
codes_lt-total (x ∷ xs) (y ∷ ys) h k = ground (arith, codes_lt-total xs ys)

codes_lt_trans :
    (xs ys zs : List ℕ) → codes_lt xs ys ≡ true → codes_lt ys zs ≡ true → codes_lt xs zs ≡ true
unfolding codes_lt
codes_lt_trans xs [] zs h k = cc
codes_lt_trans xs (y ∷ ys) [] h k = cc
codes_lt_trans [] (y ∷ ys) (z ∷ zs) h k = refl
codes_lt_trans (x ∷ xs) (y ∷ ys) (z ∷ zs) h k = ground (arith, codes_lt_trans xs ys zs)

pub codes_injective : (s t : String) → codes s ≡ codes t → s ≡ t
codes_injective String.[] String.[] h = refl
codes_injective String.[] (String.◌∷◌ d t) h = cc
codes_injective (String.◌∷◌ c s) String.[] h = cc
codes_injective (String.◌∷◌ c s) (String.◌∷◌ d t) h =
    let first : Path ℕ (code c) (code d) = cc in
    let rest : Path (List ℕ) (codes s) (codes t) = cc in
    λ i. String.◌∷◌ (Char-path c d first i) (codes_injective s t rest i)

module _ {ℓ} {A : Type ℓ} (key : A → List ℕ) where
  unfoldable pub insert_by : A → List A → List A
  insert_by x [] = x ∷ []
  insert_by x (y ∷ ys) = if codes_lt (key x) (key y) then x ∷ y ∷ ys else y ∷ insert_by x ys

  unfoldable pub sort_by : List A → List A
  unfolding insert_by
  sort_by [] = []
  sort_by (x ∷ xs) = insert_by x (sort_by xs)

  insert_comm :
      (x y : A) (zs : List A)
      → key x ≢ key y
      → insert_by x (insert_by y zs) ≡ insert_by y (insert_by x zs)
  unfolding insert_by
  insert_comm x y [] ne = ground (
    arith,
    codes_lt-total (key x) (key y),
    codes_lt-asymm (key x) (key y),
    codes_lt-asymm (key y) (key x),
  )
  insert_comm x y (z ∷ zs) ne = ground (
    arith,
    insert_comm x y zs ne,
    codes_lt-total (key x) (key y),
    codes_lt-asymm (key x) (key y),
    codes_lt-asymm (key y) (key x),
    codes_lt_trans (key x) (key y) (key z),
    codes_lt_trans (key y) (key x) (key z),
  )

  pub insert_by-All {κ} :
      (P : A → Type κ) (x : A) (xs : List A) → P x → All P xs → All P (insert_by x xs)
  unfolding insert_by
  insert_by-All P x [] p ps = (p, tt)
  insert_by-All P x (y ∷ ys) p (q, qs) = elim (Bool-cases (codes_lt (key x) (key y))) [
    | inl less ↦ rw less (p, (q, qs))
    | inr more ↦ rw more (q, insert_by-All P x ys p qs)
  ]

  -- Ascending: no element is less than the one before it.
  abbrev pub IsBelow : A → List A → Type 0
  IsBelow x ys = All (λ y. codes_lt (key y) (key x) ≡ false) ys

  abbrev pub IsSorted : List A → Type 0
  IsSorted [] = Unit
  IsSorted (x ∷ xs) = IsBelow x xs × IsSorted xs

  IsBelow-trans :
      (x y : A) (zs : List A) → codes_lt (key x) (key y) ≡ true → IsBelow y zs → IsBelow x zs
  IsBelow-trans x y [] less below = tt
  IsBelow-trans x y (z ∷ zs) less (b, bs) =
      (ground (arith, codes_lt_trans (key z) (key x) (key y)), IsBelow-trans x y zs less bs)

  insert_by-IsSorted : (x : A) (ys : List A) → IsSorted ys → IsSorted (insert_by x ys)
  unfolding insert_by
  insert_by-IsSorted x [] sorted = (tt, tt)
  insert_by-IsSorted x (y ∷ ys) (below, sorted) = elim (Bool-cases (codes_lt (key x) (key y))) [
    | inl less ↦
        rw less
          ((codes_lt-asymm (key x) (key y) less, IsBelow-trans x y ys less below), (below, sorted))
    | inr more ↦ rw more (
      insert_by-All (λ z. codes_lt (key z) (key y) ≡ false) x ys more below,
      insert_by-IsSorted x ys sorted,
    )
  ]

  pub sort_by-IsSorted : (xs : List A) → IsSorted (sort_by xs)
  unfolding sort_by
  sort_by-IsSorted [] = tt
  sort_by-IsSorted (x ∷ xs) = insert_by-IsSorted x (sort_by xs) (sort_by-IsSorted xs)

  -- No two elements have the same key.
  abbrev pub AreDistinct : List A → Type 0
  AreDistinct [] = Unit
  AreDistinct (x ∷ xs) = All (λ y. key x ≢ key y) xs × AreDistinct xs

-- The second list holds the elements of the first in another order.
pub data Reordered {ℓ} {A : Type ℓ} : List A → List A → Type ℓ where
  none_left : Reordered [] []
  keep : (x : A) {xs ys : List A} → Reordered xs ys → Reordered (x ∷ xs) (x ∷ ys)
  exchange : (x y : A) (xs : List A) → Reordered (x ∷ y ∷ xs) (y ∷ x ∷ xs)
  follow : {xs ys zs : List A} → Reordered xs ys → Reordered ys zs → Reordered xs zs

pub Reordered-refl {ℓ} : {A : Type ℓ} (xs : List A) → Reordered xs xs
Reordered-refl [] = none_left
Reordered-refl (x ∷ xs) = keep x (Reordered-refl xs)

pub Reordered-map {ℓ κ} :
    {A : Type ℓ} {B : Type κ} (f : A → B) {xs ys : List A}
    → Reordered xs ys
    → Reordered (map f xs) (map f ys)
Reordered-map f none_left = none_left
Reordered-map f (keep x r) = keep (f x) (Reordered-map f r)
Reordered-map f (exchange x y xs) = exchange (f x) (f y) (map f xs)
Reordered-map f (follow r s) = follow (Reordered-map f r) (Reordered-map f s)

pub All-Reordered {ℓ κ} :
    {A : Type ℓ} (P : A → Type κ) {xs ys : List A} → Reordered xs ys → All P xs → All P ys
All-Reordered P none_left h = h
All-Reordered P (keep x r) (h, hs) = (h, All-Reordered P r hs)
All-Reordered P (exchange x y xs) (h, (k, hs)) = (k, (h, hs))
All-Reordered P (follow r s) h = All-Reordered P s (All-Reordered P r h)

module _ {ℓ} {A : Type ℓ} (key : A → List ℕ) where
  pub AreDistinct-Reordered :
      {xs ys : List A} → Reordered xs ys → AreDistinct key xs → AreDistinct key ys
  AreDistinct-Reordered none_left d = d
  AreDistinct-Reordered (keep x r) (d, ds) =
      (All-Reordered (λ y. key x ≢ key y) r d, AreDistinct-Reordered r ds)
  AreDistinct-Reordered (exchange x y xs) ((n, d), (e, ds)) = ((λ p. n (sym p), e), (d, ds))
  AreDistinct-Reordered (follow r s) d = AreDistinct-Reordered s (AreDistinct-Reordered r d)

  -- With distinct keys, the sorted list does not depend on the order of the elements.
  pub sort_by-Reordered :
      {xs ys : List A} → Reordered xs ys → AreDistinct key xs → sort_by key xs ≡ sort_by key ys
  unfolding sort_by
  sort_by-Reordered none_left d = refl
  sort_by-Reordered (keep x r) (d, ds) = ap (insert_by key x) (sort_by-Reordered r ds)
  sort_by-Reordered (exchange x y xs) ((n, d), ds) = insert_comm key x y (sort_by key xs) n
  sort_by-Reordered (follow r s) d =
      sort_by-Reordered r d ∙ sort_by-Reordered s (AreDistinct-Reordered r d)

  insert_by-Reordered : (x : A) (xs : List A) → Reordered (x ∷ xs) (insert_by key x xs)
  unfolding insert_by
  insert_by-Reordered x [] = Reordered-refl (x ∷ [])
  insert_by-Reordered x (y ∷ ys) = elim (Bool-cases (codes_lt (key x) (key y))) [
    | inl less ↦ rw less (Reordered-refl (x ∷ y ∷ ys))
    | inr more ↦ rw more (follow (exchange x y ys) (keep y (insert_by-Reordered x ys)))
  ]

  pub sort_by-reorders : (xs : List A) → Reordered xs (sort_by key xs)
  unfolding sort_by
  sort_by-reorders [] = none_left
  sort_by-reorders (x ∷ xs) =
      follow (keep x (sort_by-reorders xs)) (insert_by-Reordered x (sort_by key xs))
