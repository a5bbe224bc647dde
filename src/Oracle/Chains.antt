-- ===== src/Oracle/Chains.antt =====
-- Whether the nodes' chains agree. A chain comes with its name.
use Prim.Native.String.{String}
use lunet_locks.Prelude.{
  ℕ, suc, ◌+◌, ◌≡◌, refl, sym, ◌∙◌, inl, inr, Bool, true, false, not, ◌&&◌, Bool-cases, &&-elim,
  List, [], ◌∷◌, arith, ◌==◌, ==_iff, ap, map, ◌↔◌, ◌⊎◌, if◌then◌else◌, length, All,
}
use lunet_locks.Prelude.Results.{Result, ok, err, Result-cases, ◌>>◌}
use lunet_locks.Journal.Record.{bytes_eq}
use lunet_locks.Journal.RoundTrip.{bytes_eq_refl}
use lunet_locks.Oracle.Decode.{Transition}

unfoldable pub same_content : Transition → Transition → Bool
same_content a b =
    a.kind == b.kind
    && (a.lock_id == b.lock_id && (a.lease_id == b.lease_id && bytes_eq a.holder b.holder))

-- The refusals. A divergence of lengths has the two names and lengths, one of contents the index.
pub data Disagreement : Type 0 where
  no_chains : Disagreement
  lengths_diverge : String → ℕ → String → ℕ → Disagreement
  contents_diverge : ℕ → String → Transition → String → Transition → Disagreement

-- The loop over the zipped chains from an index on.
unfoldable pub compare_from :
    ℕ → String → List Transition → String → List Transition → Result Disagreement (Unit {0})
compare_from i m [] n bs = ok tt
compare_from i m (a ∷ rest) n [] = ok tt
compare_from i m (a ∷ rest) n (b ∷ bs) =
    let later = compare_from (i + 1) m rest n bs in
    if not (same_content a b) then err (contents_diverge i m a n b) else later

unfoldable pub compare_chain :
    String → List Transition → String × List Transition → Result Disagreement (Unit {0})
unfolding compare_from
compare_chain m reference (n, chain) =
    if not (length chain == length reference)
    then err (lengths_diverge m (length reference) n (length chain))
    else compare_from 0 m reference n chain

unfoldable pub compare_all :
    String → List Transition → List (String × List Transition) → Result Disagreement (Unit {0})
compare_all m reference [] = ok tt
compare_all m reference (c ∷ cs) = do compare_chain m reference c; compare_all m reference cs

unfoldable pub chains_agree : List (String × List Transition) → Result Disagreement (Unit {0})
unfolding compare_all
chains_agree [] = err no_chains
chains_agree ((m, reference) ∷ cs) = compare_all m reference cs

-- What the audit compares of a transition: all but the expiry.
abbrev pub content : Transition → (ℕ × ℕ) × (ℕ × List ℕ)
content t = ((t.kind, t.lock_id), (t.lease_id, t.holder))

pub bytes_eq_same : (xs ys : List ℕ) → bytes_eq xs ys ≡ true → xs ≡ ys
unfolding bytes_eq
bytes_eq_same [] [] h = refl
bytes_eq_same [] (y ∷ ys) h = cc
bytes_eq_same (x ∷ xs) [] h = cc
bytes_eq_same (x ∷ xs) (y ∷ ys) h =
    let (head, rest) = &&-elim (x == y) (bytes_eq xs ys) h in
    λ i. (==_iff x y).0 head i ∷ bytes_eq_same xs ys rest i

same_content-content : (a b : Transition) → same_content a b ≡ true → content a ≡ content b
unfolding same_content
same_content-content a b h =
    let (k, rest) = &&-elim (a.kind == b.kind) _ h in
    let (l, last) = &&-elim (a.lock_id == b.lock_id) _ rest in
    let (i', holder) = &&-elim (a.lease_id == b.lease_id) _ last in
    λ i. (
      ((==_iff a.kind b.kind).0 k i, (==_iff a.lock_id b.lock_id).0 l i),
      ((==_iff a.lease_id b.lease_id).0 i' i, bytes_eq_same a.holder b.holder holder i),
    )

content-same_content : (a b : Transition) → content a ≡ content b → same_content a b ≡ true
unfolding same_content
content-same_content a b h =
    let k : a.kind ≡ b.kind = λ i. (h i).0.0 in
    let l : a.lock_id ≡ b.lock_id = λ i. (h i).0.1 in
    let i' : a.lease_id ≡ b.lease_id = λ i. (h i).1.0 in
    let holder : bytes_eq a.holder b.holder ≡ true =
      ap (bytes_eq a.holder) (sym (λ i. (h i).1.1)) ∙ bytes_eq_refl a.holder in
    rw ((==_iff _ _).1 k, (==_iff _ _).1 l, (==_iff _ _).1 i', holder)

compare_from-cons :
    (i : ℕ) (m n : String) (a b : Transition) (rest bs : List Transition)
    → ((same_content a b ≡ true)
        × (compare_from i m (a ∷ rest) n (b ∷ bs) ≡ compare_from (i + 1) m rest n bs))
      ⊎ ((same_content a b ≡ false)
          × (compare_from i m (a ∷ rest) n (b ∷ bs) ≡ err (contents_diverge i m a n b)))
unfolding compare_from
compare_from-cons i m n a b rest bs = elim (Bool-cases (same_content a b)) [
  | inl e ↦ inl (e, rw e)
  | inr e ↦ inr (e, rw e)
]

compare_from-content :
    (r c : List Transition) (i : ℕ) (m n : String)
    → length c ≡ length r
    → compare_from i m r n c ≡ ok tt
    → map content c ≡ map content r
compare_from-content [] [] i m n len h = refl
compare_from-content [] (b ∷ bs) i m n len h = absurd (omega (arith, len))
compare_from-content (a ∷ rest) [] i m n len h = absurd (omega (arith, len))
compare_from-content (a ∷ rest) (b ∷ bs) i m n len h = elim (compare_from-cons i m n a b rest bs) [
  | inl (s, e) ↦
      let tail = compare_from-content rest bs (i + 1) m n (omega (arith, len)) (sym e ∙ h) in
      λ j. sym (same_content-content a b s) j ∷ tail j
  | inr (_, e) ↦ absurd cc
]

content-compare_from :
    (r c : List Transition) (i : ℕ) (m n : String)
    → map content c ≡ map content r
    → compare_from i m r n c ≡ ok tt
content-compare_from [] c i m n h = unfold compare_from in refl
content-compare_from (a ∷ rest) [] i m n h = absurd cc
content-compare_from (a ∷ rest) (b ∷ bs) i m n h = elim (compare_from-cons i m n a b rest bs) [
  | inl (s, e) ↦ e ∙ content-compare_from rest bs (i + 1) m n (tails (content b) (content a) _ _ h)
  | inr (s, _) ↦
      let same = content-same_content a b (heads (content a) (content b) _ _ (sym h)) in absurd cc
]
  where
    tails :
        (x y : (ℕ × ℕ) × (ℕ × List ℕ)) (xs ys : List ((ℕ × ℕ) × (ℕ × List ℕ)))
        → x ∷ xs ≡ y ∷ ys
        → xs ≡ ys
    tails x y xs ys e = cc

    heads :
        (x y : (ℕ × ℕ) × (ℕ × List ℕ)) (xs ys : List ((ℕ × ℕ) × (ℕ × List ℕ)))
        → x ∷ xs ≡ y ∷ ys
        → x ≡ y
    heads x y xs ys e = cc

length-content : (c r : List Transition) → map content c ≡ map content r → length c ≡ length r
length-content [] [] h = refl
length-content [] (r ∷ rs) h = absurd cc
length-content (c ∷ cs) [] h = absurd cc
length-content (c ∷ cs) (r ∷ rs) h = ap suc (length-content cs rs cc)

compare_chain-content :
    (m : String) (r : List Transition) (n : String) (c : List Transition)
    → (compare_chain m r (n, c) ≡ ok tt) ↔ (map content c ≡ map content r)
unfolding compare_chain
compare_chain-content m r n c = elim (Bool-cases (length c == length r)) [
  | inl e ↦ (
    λ h. compare_from-content r c 0 m n ((==_iff _ _).0 e) (sym (compared e) ∙ h),
    λ h. compared e ∙ content-compare_from r c 0 m n h,
  )
  | inr e ↦ (
    λ h. absurd (refused e h),
    λ h. absurd (let same = (==_iff _ _).1 (length-content c r h) in cc),
  )
]
  where
    compared : (length c == length r) ≡ true → compare_chain m r (n, c) ≡ compare_from 0 m r n c
    compared e = rw e

    refused : (length c == length r) ≡ false → compare_chain m r (n, c) ≡ ok tt → ⊥
    refused e h = ground arith

-- Every other chain has the first chain's transitions, expiries aside.
abbrev pub AllSame : List Transition → List (String × List Transition) → Type 0
AllSame reference cs = All (λ c. map content c.1 ≡ map content reference) cs

compare_all-AllSame :
    (m : String) (r : List Transition) (cs : List (String × List Transition))
    → (compare_all m r cs ≡ ok tt) ↔ AllSame r cs
compare_all-AllSame m r [] = (λ h. tt, λ h. unfold compare_all in refl)
compare_all-AllSame m r ((n, c) ∷ cs) = elim (Result-cases (compare_chain m r (n, c))) [
  | inl (tt, e) ↦ (
    λ h. ((compare_chain-content m r n c).0 e, (compare_all-AllSame m r cs).0 (sym (next e) ∙ h)),
    λ h. next e ∙ (compare_all-AllSame m r cs).1 h.1,
  )
  | inr (x, e) ↦ (
    λ h. absurd (let s = stopped x e in cc),
    λ h. absurd (let k = (compare_chain-content m r n c).1 h.0 in cc),
  )
]
  where
    next : compare_chain m r (n, c) ≡ ok tt → compare_all m r ((n, c) ∷ cs) ≡ compare_all m r cs
    next e = unfold compare_all in rw e

    stopped :
        (x : Disagreement)
        → compare_chain m r (n, c) ≡ err x
        → compare_all m r ((n, c) ∷ cs) ≡ err x
    stopped x e = unfold compare_all in rw e

-- The chains of several nodes agree exactly when each of them has the first one's transitions in the
-- same order and number, in all but their expiries.
pub chains_agree-AllSame :
    (m : String) (reference : List Transition) (cs : List (String × List Transition))
    → (chains_agree ((m, reference) ∷ cs) ≡ ok tt) ↔ AllSame reference cs
unfolding chains_agree
chains_agree-AllSame m reference cs = compare_all-AllSame m reference cs
