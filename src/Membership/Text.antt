-- ===== src/Membership/Text.antt =====
-- The string functions that the endpoint test calls, on the bytes of a string: splitting at an ASCII
-- character, parsing an unsigned decimal, and the UTF-8 test.
use lunet_locks.Prelude.{
  ℕ, zero, suc, ◌+◌, ◌-◌, ◌*◌, ◌/◌, ◌%◌, Bool, true, false, ◌&&◌, Option, none, some, List, [], ◌∷◌,
  ◌++◌, ltb, leb, ◌==◌, if◌then◌else◌,
}

-- `text.rsplit_once(c)`.
unfoldable pub rsplit_once : ℕ → List ℕ → Option (List ℕ × List ℕ)
rsplit_once c [] = none
rsplit_once c (x ∷ xs) = elim (rsplit_once c xs) [
  | some (h, p) ↦ some (x ∷ h, p)
  | none ↦ if x == c then some ([], xs) else none
]

unfoldable pub push_front : ℕ → List (List ℕ) → List (List ℕ)
push_front x [] = (x ∷ []) ∷ []
push_front x (p ∷ ps) = (x ∷ p) ∷ ps

-- `text.split(c).collect()`.
unfoldable pub split_on : ℕ → List ℕ → List (List ℕ)
unfolding push_front
split_on c [] = [] ∷ []
split_on c (x ∷ xs) = let rest = split_on c xs in if x == c then [] ∷ rest else push_front x rest

-- `text.strip_prefix(c)`.
unfoldable pub strip_prefix : ℕ → List ℕ → Option (List ℕ)
strip_prefix c [] = none
strip_prefix c (x ∷ xs) = if x == c then some xs else none

-- `text.strip_suffix(c)`.
unfoldable pub strip_suffix : ℕ → List ℕ → Option (List ℕ)
strip_suffix c [] = none
strip_suffix c (x ∷ []) = if x == c then some [] else none
strip_suffix c (x ∷ y ∷ ys) = elim (strip_suffix c (y ∷ ys)) [ some r ↦ some (x ∷ r) | none ↦ none ]

-- The digits' value, as long as it stays within the type's greatest value.
parse_digits : ℕ → ℕ → List ℕ → Option ℕ
parse_digits greatest acc [] = some acc
parse_digits greatest acc (b ∷ bs) =
    let v = acc * 10 + (b - b'0') in
    let rest = parse_digits greatest v bs in
    if leb b'0' b && (leb b b'9' && leb v greatest) then rest else none

-- `text.parse()` to an unsigned type with this greatest value: a leading `+` is allowed.
unfoldable pub parse_unsigned : ℕ → List ℕ → Option ℕ
unfolding parse_digits
parse_unsigned greatest [] = none
parse_unsigned greatest (b ∷ []) = parse_digits greatest 0 (b ∷ [])
parse_unsigned greatest (b ∷ c ∷ bs) =
    if b == b'+' then parse_digits greatest 0 (c ∷ bs) else parse_digits greatest 0 (b ∷ c ∷ bs)

-- The decimal digits of a number below 10 to the fuel.
decimal_from : ℕ → ℕ → List ℕ
decimal_from zero n = []
decimal_from (suc fuel) n =
    let front = decimal_from fuel (n / 10) in
    let last = (b'0' + n % 10) ∷ [] in if ltb n 10 then last else front ++ last

-- `format!("{n}")` of an integer of at most 64 bits, which has at most 20 digits.
unfoldable pub decimal : ℕ → List ℕ
unfolding decimal_from
decimal n = decimal_from 20 n

-- Between two characters, or in one: the bytes it still needs, and the range of the next of them.
pub data Utf8 : Type 0 where
  start bad : Utf8
  more : ℕ → ℕ → ℕ → Utf8

first_byte : ℕ → Utf8
first_byte b =
    if ltb b 0x80
    then start
    else if ltb b 0xC2
    then bad
    else if ltb b 0xE0
    then more 0 0x80 0xBF
    else if b == 0xE0
    then more 1 0xA0 0xBF
    else if b == 0xED
    then more 1 0x80 0x9F
    else if ltb b 0xF0
    then more 1 0x80 0xBF
    else if b == 0xF0
    then more 2 0x90 0xBF
    else if ltb b 0xF4
    then more 2 0x80 0xBF
    else if b == 0xF4
    then more 2 0x80 0x8F
    else bad

later_byte : ℕ → Utf8
later_byte zero = start
later_byte (suc n) = more n 0x80 0xBF

next_byte : Utf8 → ℕ → Utf8
unfolding first_byte later_byte
next_byte start b = first_byte b
next_byte bad b = bad
next_byte (more n lo hi) b = if leb lo b && leb b hi then later_byte n else bad

utf8_from : Utf8 → List ℕ → Bool
unfolding next_byte
utf8_from start [] = true
utf8_from bad [] = false
utf8_from (more n lo hi) [] = false
utf8_from s (b ∷ bs) = utf8_from (next_byte s b) bs

-- `std::str::from_utf8(bytes).is_ok()`.
unfoldable pub is_utf8 : List ℕ → Bool
unfolding utf8_from
is_utf8 bs = utf8_from start bs
