-- ===== src/Prelude/Distinct.antt =====
-- Lists in which no two members are equal by a Boolean test, and how list operations keep that.
use mathlib.Core.Path.{◌≡◌, refl}
use mathlib.Core.Logic.{inl, inr}
use mathlib.Core.Bool.{Bool, true, false, ◌||◌}
use mathlib.Core.List.{List, [], ◌∷◌, ◌++◌}
use native.Mathlib.Omega.{arith}
use lunet_locks.Prelude.Tests.{if◌then◌else◌, Bool-cases}
use lunet_locks.Prelude.Lists.{any, keep, length, All}

-- The list with its first member that passes the test replaced.
abbrev pub replace_first {ℓ} : {A : Type ℓ} → (A → Bool) → A → List A → List A
replace_first p a [] = []
replace_first p a (x ∷ xs) = let rest = replace_first p a xs in if p x then a ∷ xs else x ∷ rest

-- A test that is an equivalence.
pub record IsEquivalence {ℓ} {A : Type ℓ} (eqb : A → A → Bool) : Type ℓ where
  pub eqb_refl : (a : A) → eqb a a ≡ true
  pub eqb_sym : (a b : A) → eqb a b ≡ eqb b a
  pub eqb_same : (x a b : A) → eqb a b ≡ true → eqb x a ≡ eqb x b

abbrev pub DistinctBy {ℓ} : {A : Type ℓ} → (A → A → Bool) → List A → Type 0
DistinctBy eqb [] = Unit
DistinctBy eqb (x ∷ xs) = (any (eqb x) xs ≡ false) × DistinctBy eqb xs

module _ {ℓ} {A : Type ℓ} (eqb : A → A → Bool) where
  any-keep :
      (a : A) (p : A → Bool) (xs : List A)
      → any (eqb a) xs ≡ false
      → any (eqb a) (keep p xs) ≡ false
  any-keep a p [] h = refl
  any-keep a p (x ∷ xs) h = ground (arith, any-keep a p xs)

  pub keep-DistinctBy :
      (p : A → Bool) (xs : List A) → DistinctBy eqb xs → DistinctBy eqb (keep p xs)
  keep-DistinctBy p [] h = tt
  keep-DistinctBy p (x ∷ xs) h = elim (Bool-cases (p x)) [
    | inl e ↦ rw e (any-keep x p xs h.0, keep-DistinctBy p xs h.1)
    | inr e ↦ rw e (keep-DistinctBy p xs h.1)
  ]

  pub drop_one-DistinctBy : (x : A) (xs : List A) → DistinctBy eqb (x ∷ xs) → DistinctBy eqb xs
  drop_one-DistinctBy x xs h = h.1

  pub any-concat :
      (a b : A) (xs : List A) → any (eqb a) (xs ++ b ∷ []) ≡ (any (eqb a) xs || eqb a b)
  any-concat a b [] = ground arith
  any-concat a b (x ∷ xs) = ground (arith, any-concat a b xs)

module _ {ℓ} {A : Type ℓ} (eqb : A → A → Bool) (e : IsEquivalence eqb) where
  pub concat-DistinctBy :
      (a : A) (xs : List A)
      → any (eqb a) xs ≡ false
      → DistinctBy eqb xs
      → DistinctBy eqb (xs ++ a ∷ [])
  concat-DistinctBy a [] h d = (refl, tt)
  concat-DistinctBy a (x ∷ xs) h d = (
    ground (arith, any-concat eqb x a xs, e.eqb_sym x a),
    concat-DistinctBy a xs (ground arith) d.1,
  )

  any-replace_first :
      (x a : A) (xs : List A) → any (eqb x) (replace_first (eqb a) a xs) ≡ any (eqb x) xs
  any-replace_first x a [] = refl
  any-replace_first x a (y ∷ ys) = elim (Bool-cases (eqb a y)) [
    | inl h ↦ rw h (rw (e.eqb_same x a y h))
    | inr h ↦ rw h (rw (any-replace_first x a ys))
  ]

  pub replace_first-DistinctBy :
      (a : A) (xs : List A) → DistinctBy eqb xs → DistinctBy eqb (replace_first (eqb a) a xs)
  replace_first-DistinctBy a [] d = tt
  replace_first-DistinctBy a (y ∷ ys) d = elim (Bool-cases (eqb a y)) [
    | inl h ↦ rw h (any-same a y ys h d.0, d.1)
    | inr h ↦ rw h (ground (arith, any-replace_first y a ys), replace_first-DistinctBy a ys d.1)
  ]
    where
      any-same :
          (a y : A) (zs : List A) → eqb a y ≡ true → any (eqb y) zs ≡ false → any (eqb a) zs ≡ false
      any-same a y [] h k = refl
      any-same a y (z ∷ zs) h k =
          ground (arith, e.eqb_same z a y h, e.eqb_sym z a, e.eqb_sym z y, any-same a y zs h)

module _ {ℓ} {A : Type ℓ} (p : A → Bool) (a : A) where
  pub length-replace_first : (xs : List A) → length (replace_first p a xs) ≡ length xs
  length-replace_first [] = refl
  length-replace_first (x ∷ xs) = ground (arith, length-replace_first xs)

  pub replace_first-All {κ} :
      (P : A → Type κ) (xs : List A) → P a → All P xs → All P (replace_first p a xs)
  replace_first-All P [] h k = tt
  replace_first-All P (x ∷ xs) h k = elim (Bool-cases (p x)) [
    | inl e ↦ rw e (h, k.1)
    | inr e ↦ rw e (k.0, replace_first-All P xs h k.1)
  ]
