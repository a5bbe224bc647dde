-- ===== src/Prelude/Members.antt =====
-- Membership through filters, concatenations and replacements.
use mathlib.Core.Path.{◌≡◌, refl}
use mathlib.Core.Logic.{inl, inr, ◌⊎◌}
use mathlib.Core.Bool.{Bool, true, false}
use mathlib.Core.List.{List, [], ◌∷◌, ◌++◌}
use lunet_locks.Prelude.Tests.{Bool-cases}
use lunet_locks.Prelude.Lists.{any, keep, In, All}
use lunet_locks.Prelude.Distinct.{replace_first}

module _ {A : Type 0} where
  pub In-keep : (a : A) (p : A → Bool) (xs : List A) → In a xs → p a ≡ true → In a (keep p xs)
  In-keep a p [] h k = elim h [ ]
  In-keep a p (x ∷ xs) (inl e) k = rw (← e) (rw k (inl refl))
  In-keep a p (x ∷ xs) (inr i) k = elim (Bool-cases (p x)) [
    | inl e ↦ rw e (inr (In-keep a p xs i k))
    | inr e ↦ rw e (In-keep a p xs i k)
  ]

  pub keep-In : (a : A) (p : A → Bool) (xs : List A) → In a (keep p xs) → In a xs × (p a ≡ true)
  keep-In a p [] h = elim h [ ]
  keep-In a p (x ∷ xs) h = elim (Bool-cases (p x)) [
    | inl e ↦ from_head e (keep-In a p xs) (rw e at h)
    | inr e ↦ let r = keep-In a p xs (rw e at h) in (inr r.0, r.1)
  ]
    where
      from_head :
          p x ≡ true
          → (In a (keep p xs) → In a xs × (p a ≡ true))
          → In a (x ∷ keep p xs)
          → In a (x ∷ xs) × (p a ≡ true)
      from_head e rest (inl q) = (inl q, rw q e)
      from_head e rest (inr i) = let r = rest i in (inr r.0, r.1)

  pub In-append_left : (a : A) (xs ys : List A) → In a xs → In a (xs ++ ys)
  In-append_left a [] ys h = elim h [ ]
  In-append_left a (x ∷ xs) ys (inl e) = inl e
  In-append_left a (x ∷ xs) ys (inr i) = inr (In-append_left a xs ys i)

  pub In-append_right : (a : A) (xs ys : List A) → In a ys → In a (xs ++ ys)
  In-append_right a [] ys h = h
  In-append_right a (x ∷ xs) ys h = inr (In-append_right a xs ys h)

  -- What takes the place of a member that passes the test is in the list.
  pub In-replace_first :
      (p : A → Bool) (a : A) (xs : List A) → any p xs ≡ true → In a (replace_first p a xs)
  In-replace_first p a [] h = cc
  In-replace_first p a (x ∷ xs) h = elim (Bool-cases (p x)) [
    | inl e ↦ rw e (inl refl)
    | inr e ↦ rw e (inr (In-replace_first p a xs (rw e at h)))
  ]

  -- A member that fails the test stays.
  pub replace_first-In :
      (p : A → Bool) (a b : A) (xs : List A) → p b ≡ false → In b xs → In b (replace_first p a xs)
  replace_first-In p a b [] h i = elim i [ ]
  replace_first-In p a b (x ∷ xs) h (inl e) = rw (← e) (rw h (inl refl))
  replace_first-In p a b (x ∷ xs) h (inr i) = elim (Bool-cases (p x)) [
    | inl e ↦ rw e (inr i)
    | inr e ↦ rw e (inr (replace_first-In p a b xs h i))
  ]

  pub All-In {κ} : (P : A → Type κ) (a : A) (xs : List A) → All P xs → In a xs → P a
  All-In P a [] h i = elim i [ ]
  All-In P a (x ∷ xs) h (inl e) = rw e h.0
  All-In P a (x ∷ xs) h (inr i) = All-In P a xs h.1 i

  pub keep-none : (p : A → Bool) (xs : List A) → All (λ x. p x ≡ false) xs → keep p xs ≡ []
  keep-none p [] h = refl
  keep-none p (x ∷ xs) h = rw (h.0) (keep-none p xs h.1)

  pub append-In : (a : A) (xs ys : List A) → In a (xs ++ ys) → In a xs ⊎ In a ys
  append-In a [] ys i = inr i
  append-In a (x ∷ xs) ys (inl e) = inl (inl e)
  append-In a (x ∷ xs) ys (inr i) = elim (append-In a xs ys i) [
    | inl h ↦ inl (inr h)
    | inr h ↦ inr h
  ]

  pub from-replace_first :
      (p : A → Bool) (a b : A) (xs : List A) → In b (replace_first p a xs) → In b xs ⊎ (b ≡ a)
  from-replace_first p a b [] i = inl i
  from-replace_first p a b (x ∷ xs) i = elim (Bool-cases (p x)) [
    | inl e ↦ taken (rw e at i)
    | inr e ↦ left (from-replace_first p a b xs) (rw e at i)
  ]
    where
      taken : In b (a ∷ xs) → In b (x ∷ xs) ⊎ (b ≡ a)
      taken (inl h) = inr h
      taken (inr h) = inl (inr h)

      left :
          (In b (replace_first p a xs) → In b xs ⊎ (b ≡ a))
          → In b (x ∷ replace_first p a xs)
          → In b (x ∷ xs) ⊎ (b ≡ a)
      left rest (inl h) = inl (inl h)
      left rest (inr h) = elim (rest h) [ inl k ↦ inl (inr k) | inr k ↦ inr k ]
