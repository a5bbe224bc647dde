-- ===== src/Locks/Names.antt =====
-- The tests on a lock's name and labels, and the normal form of a label list. Strings are their bytes.
use lunet_locks.Prelude.{
  ℕ, suc, ◌-◌, Bool, true, false, not, ◌&&◌, ◌||◌, Option, none, some, List, [], ◌∷◌, ltb, leb,
  ◌==◌, if◌then◌else◌, length, take, drop, all,
}
use lunet_locks.Journal.Record.{bytes_eq, byte_at}

abbrev pub in_range : ℕ → ℕ → ℕ → Bool
in_range lo hi b = leb lo b && leb b hi

abbrev pub is_name_byte : ℕ → Bool
is_name_byte b =
    in_range b'A' b'Z' b
    || (in_range b'a' b'z' b || (in_range b'0' b'9' b || (b == b'.' || (b == b'_' || b == b'-'))))

-- One turn of the loop over the bytes: the new length of the segment, or `none` for a refusal.
abbrev pub segment_step : ℕ → ℕ → Option ℕ
segment_step segment_len b =
    if b == b'/'
    then if segment_len == 0 then none else some 0
    else if is_name_byte b
    then some (suc segment_len)
    else none

unfoldable pub name_loop : ℕ → List ℕ → Bool
name_loop segment_len [] = ltb 0 segment_len
name_loop segment_len (b ∷ bs) = elim (segment_step segment_len b) [
  | none ↦ false
  | some n ↦ name_loop n bs
]

unfoldable pub valid_name : List ℕ → Bool
unfolding name_loop
valid_name [] = false
valid_name (b ∷ bs) = if ltb 128 (suc (length bs)) || not (b == b'/') then false else name_loop 0 bs

abbrev pub is_alnum : ℕ → Bool
is_alnum b = in_range b'a' b'z' b || in_range b'0' b'9' b

unfoldable pub valid_label : List ℕ → Bool
valid_label bytes =
    let n = length bytes in
    if n == 0 || ltb 32 n
    then false
    else if not (is_alnum (byte_at 0 bytes))
    then false
    else if n == 1
    then true
    else if not (is_alnum (byte_at (n - 1) bytes))
    then false
    else all (λ b. is_alnum b || b == b'-') (take (n - 2) (drop 1 bytes))

valid_labels : Option (List (List ℕ)) → Bool
valid_labels none = true
valid_labels (some labels) = leb (length labels) 8 && all valid_label labels

valid_option_name : Option (List ℕ) → Bool
valid_option_name none = true
valid_option_name (some name) = valid_name name

unfoldable pub validate_identity : Option (List ℕ) → Option (List (List ℕ)) → Bool
unfolding valid_option_name valid_labels
validate_identity name labels = valid_option_name name && valid_labels labels

-- The order of strings, byte by byte.
abbrev pub bytes_le : List ℕ → List ℕ → Bool
bytes_le [] ys = true
bytes_le (x ∷ xs) [] = false
bytes_le (x ∷ xs) (y ∷ ys) = let rest = bytes_le xs ys in ltb x y || (x == y && rest)

abbrev pub insert_label : List ℕ → List (List ℕ) → List (List ℕ)
insert_label l [] = l ∷ []
insert_label l (k ∷ ks) =
    let rest = insert_label l ks in if bytes_le l k then l ∷ k ∷ ks else k ∷ rest

-- `list.sort()`.
abbrev pub sort_labels : List (List ℕ) → List (List ℕ)
sort_labels [] = []
sort_labels (l ∷ ls) = insert_label l (sort_labels ls)

-- A label in front of a list without repeats, unless it is the list's first.
abbrev pub put_label : List ℕ → List (List ℕ) → List (List ℕ)
put_label l [] = l ∷ []
put_label l (k ∷ ks) = if bytes_eq l k then k ∷ ks else l ∷ k ∷ ks

-- `list.dedup()`.
abbrev pub dedup : List (List ℕ) → List (List ℕ)
dedup [] = []
dedup (l ∷ ls) = put_label l (dedup ls)

abbrev pub none_if_empty : List (List ℕ) → Option (List (List ℕ))
none_if_empty [] = none
none_if_empty (l ∷ ls) = some (l ∷ ls)

unfoldable pub normal_labels : Option (List (List ℕ)) → Option (List (List ℕ))
normal_labels none = none
normal_labels (some ls) = none_if_empty (dedup (sort_labels ls))
