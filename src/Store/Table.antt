-- ===== src/Store/Table.antt =====
-- A table as the list of its rows in insertion order, and the shapes of SQL that the queries use.

use ez_vpn_lego.Prelude.{
  ◌≡◌, refl, Bool, true, false, ◌||◌, Option, none, some, List, [], ◌∷◌, ◌++◌, arith, if◌then◌else◌,
}

module _ {ℓ} {A : Type ℓ} where
  -- `SELECT … WHERE p`, one row
  unfoldable pub find : (A → Bool) → List A → Option A
  find p [] = none
  find p (x ∷ xs) = if p x then some x else find p xs

  unfoldable pub exists : (A → Bool) → List A → Bool
  exists p [] = false
  exists p (x ∷ xs) = p x || exists p xs

  -- `SELECT … WHERE p`
  unfoldable pub select : (A → Bool) → List A → List A
  select p [] = []
  select p (x ∷ xs) = let rest = select p xs in if p x then x ∷ rest else rest

  -- `UPDATE … SET f WHERE p`
  unfoldable pub update : (A → Bool) → (A → A) → List A → List A
  update p f [] = []
  update p f (x ∷ xs) = (if p x then f x else x) ∷ update p f xs

  -- `INSERT`
  abbrev pub insert : A → List A → List A
  insert x xs = xs ++ (x ∷ [])

  pub find-insert :
      (p : A → Bool) (x : A) (xs : List A)
      → exists p xs ≡ false
      → p x ≡ true
      → find p (insert x xs) ≡ some x
  unfolding find exists
  find-insert p x [] h k = ground arith
  find-insert p x (y ∷ ys) h k = ground (arith, find-insert p x ys)

  pub find-insert_ne :
      (p : A → Bool) (x : A) (xs : List A) → p x ≡ false → find p (insert x xs) ≡ find p xs
  unfolding find
  find-insert_ne p x [] k = ground arith
  find-insert_ne p x (y ∷ ys) k = ground (arith, find-insert_ne p x ys k)

  -- A row that is found is still found after it was inserted elsewhere.
  pub find-insert-some :
      (p : A → Bool) (x : A) (xs : List A) (y : A)
      → find p xs ≡ some y
      → find p (insert x xs) ≡ some y
  unfolding find
  find-insert-some p x [] y h = cc
  find-insert-some p x (z ∷ zs) y h = ground (arith, find-insert-some p x zs y)

  pub find-holds : (p : A → Bool) (xs : List A) (y : A) → find p xs ≡ some y → p y ≡ true
  unfolding find
  find-holds p [] y h = cc
  find-holds p (z ∷ zs) y h = ground (arith, find-holds p zs y)

  pub exists-find : (p : A → Bool) (xs : List A) (y : A) → find p xs ≡ some y → exists p xs ≡ true
  unfolding find exists
  exists-find p [] y h = cc
  exists-find p (z ∷ zs) y h = ground (arith, exists-find p zs y)

  pub find-none : (p : A → Bool) (xs : List A) → exists p xs ≡ false → find p xs ≡ none
  unfolding find exists
  find-none p [] h = refl
  find-none p (z ∷ zs) h = ground (arith, find-none p zs)

  pub exists-insert :
      (p : A → Bool) (x : A) (xs : List A) → exists p (insert x xs) ≡ (exists p xs || p x)
  unfolding exists
  exists-insert p x [] = ground arith
  exists-insert p x (y ∷ ys) = ground (arith, exists-insert p x ys)

  -- An update that leaves a test alone leaves its answer alone.
  pub exists-update :
      (p q : A → Bool) (f : A → A) (xs : List A)
      → ((a : A) → p (f a) ≡ p a)
      → exists p (update q f xs) ≡ exists p xs
  unfolding exists update
  exists-update p q f [] same = refl
  exists-update p q f (y ∷ ys) same = ground (arith, same y, exists-update p q f ys same)

  abbrev pub touched : (A → Bool) → (A → A) → Option A → Option A
  touched q f none = none
  touched q f (some a) = some (if q a then f a else a)

  pub find-update :
      (p q : A → Bool) (f : A → A) (xs : List A)
      → ((a : A) → p (f a) ≡ p a)
      → find p (update q f xs) ≡ touched q f (find p xs)
  unfolding find update
  find-update p q f [] same = refl
  find-update p q f (y ∷ ys) same = ground (arith, same y, find-update p q f ys same)

  -- A test that implies another finds no row where the other finds none.
  pub exists-weaken :
      (p q : A → Bool) (xs : List A)
      → ((a : A) → p a ≡ true → q a ≡ true)
      → exists q xs ≡ false
      → exists p xs ≡ false
  unfolding exists
  exists-weaken p q [] imp h = refl
  exists-weaken p q (y ∷ ys) imp h = ground (arith, imp y, exists-weaken p q ys imp)
