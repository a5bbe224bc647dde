-- ===== src/Wal/Labels.antt =====
-- A durable lock's labels as the tag bytes of its frame, and back.
use lunet_locks.Prelude.{
  ℕ, ◌≡◌, refl, ap, ◌∙◌, inl, inr, true, false, Bool-cases, List, [], ◌∷◌, ◌++◌, append-nil, arith,
  ◌==◌, if◌then◌else◌, any, All,
}

abbrev pub newline : ℕ
newline = 10

-- The labels behind the first, each with a newline before it.
abbrev pub more_labels : List (List ℕ) → List ℕ
more_labels [] = []
more_labels (l ∷ ls) = newline ∷ (l ++ more_labels ls)

unfoldable pub labels_to_tag_bytes : List (List ℕ) → List ℕ
labels_to_tag_bytes [] = []
labels_to_tag_bytes (l ∷ ls) = l ++ more_labels ls

abbrev pub onto_first : ℕ → List (List ℕ) → List (List ℕ)
onto_first b [] = (b ∷ []) ∷ []
onto_first b (l ∷ ls) = (b ∷ l) ∷ ls

-- `split` at newlines; no bytes are one empty label. `from_utf8_lossy` leaves bytes that are UTF-8, as
-- those of labels are, and is left out.
unfoldable pub labels : List ℕ → List (List ℕ)
labels [] = [] ∷ []
labels (b ∷ bs) = let rest = labels bs in if b == newline then [] ∷ rest else onto_first b rest

-- A label has no newline.
abbrev pub IsLabel : List ℕ → Type 0
IsLabel l = any (λ b. b == newline) l ≡ false

no_head : (b : ℕ) (l : List ℕ) → (b == newline) ≡ true → IsLabel (b ∷ l) → ⊥
no_head b l e h = ground arith

no_tail : (b : ℕ) (l : List ℕ) → (b == newline) ≡ false → IsLabel (b ∷ l) → IsLabel l
no_tail b l e h = rw e at h

labels-more : (l : List ℕ) (bs : List ℕ) → IsLabel l → labels (l ++ newline ∷ bs) ≡ l ∷ labels bs
unfolding labels
labels-more [] bs h = refl
labels-more (b ∷ l) bs h = elim (Bool-cases (b == newline)) [
  | inl e ↦ absurd (no_head b l e h)
  | inr e ↦ rw e (ap (onto_first b) (labels-more l bs (no_tail b l e h)))
]

labels-one : (l : List ℕ) → IsLabel l → labels l ≡ l ∷ []
unfolding labels
labels-one [] h = refl
labels-one (b ∷ l) h = elim (Bool-cases (b == newline)) [
  | inl e ↦ absurd (no_head b l e h)
  | inr e ↦ rw e (ap (onto_first b) (labels-one l (no_tail b l e h)))
]

-- Labels without newlines, at least one of them, are read back from the tag bytes they are joined to.
pub labels-labels_to_tag_bytes :
    (l : List ℕ) (ls : List (List ℕ))
    → All IsLabel (l ∷ ls)
    → labels (labels_to_tag_bytes (l ∷ ls)) ≡ l ∷ ls
unfolding labels_to_tag_bytes
labels-labels_to_tag_bytes l [] h = rw append-nil (labels-one l h.0)
labels-labels_to_tag_bytes l (m ∷ ls) h =
    labels-more l (m ++ more_labels ls) h.0 ∙ ap (◌∷◌ l) (labels-labels_to_tag_bytes m ls h.1)
