-- ===== src/Prelude/Bytes.antt =====
-- Big-endian integers of a fixed width (`to_be_bytes`, `from_be_bytes`), and slices of bytes.
use Prim.Native.Nat.{ℕ, zero, suc, ◌+◌, ◌*◌, ◌/◌, ◌%◌, ◌^◌, ◌<◌}
use mathlib.Core.Path.{◌≡◌, refl, sym, ap, ◌∙◌}
use mathlib.Core.List.{List, [], ◌∷◌, ◌++◌, append_assoc, append-nil}
use native.Mathlib.Nat.{pow-suc}
use native.Mathlib.Omega.{arith}
use lunet_locks.Prelude.Lists.{length, take, drop, length-append, take-append, drop-append, All}

-- `n.to_be_bytes()` of a `w`-byte integer.
unfoldable pub to_be : ℕ → ℕ → List ℕ
to_be zero n = []
to_be (suc w) n = to_be w (n / 256) ++ (n % 256) ∷ []

from_be_onto : ℕ → List ℕ → ℕ
from_be_onto acc [] = acc
from_be_onto acc (b ∷ bs) = from_be_onto (acc * 256 + b) bs

-- `from_be_bytes(bytes)`.
unfoldable pub from_be : List ℕ → ℕ
unfolding from_be_onto
from_be bs = from_be_onto 0 bs

pub length-to_be : (w n : ℕ) → length (to_be w n) ≡ w
unfolding to_be
length-to_be zero n = refl
length-to_be (suc w) n =
    omega (arith, length-append (to_be w (n / 256)) ((n % 256) ∷ []), length-to_be w (n / 256))

from_be_onto-concat :
    (acc : ℕ) (bs : List ℕ) (b : ℕ)
    → from_be_onto acc (bs ++ b ∷ []) ≡ from_be_onto acc bs * 256 + b
unfolding from_be_onto
from_be_onto-concat acc [] b = refl
from_be_onto-concat acc (x ∷ bs) b = from_be_onto-concat (acc * 256 + x) bs b

-- A value that fits its width is read back.
pub from_be-to_be : (w n : ℕ) → n < 256 ^ w → from_be (to_be w n) ≡ n
unfolding from_be to_be
from_be-to_be zero n h = omega (arith)
from_be-to_be (suc w) n h = omega (
  arith,
  from_be_onto-concat 0 (to_be w (n / 256)) (n % 256),
  from_be-to_be w (n / 256) (div_fits w n h),
)
  where
    div_fits : (w n : ℕ) → n < 256 ^ suc w → n / 256 < 256 ^ w
    div_fits w n h = omega (arith, pow-suc 256 w)

-- `data[from..from + n]`.
abbrev pub slice {ℓ} : {A : Type ℓ} → ℕ → ℕ → List A → List A
slice from n xs = take n (drop from xs)

-- The part of a concatenation that lies at a known place.
pub slice-append {ℓ} :
    {A : Type ℓ} (i n : ℕ) (pre mid post : List A)
    → length pre ≡ i
    → length mid ≡ n
    → slice i n (pre ++ (mid ++ post)) ≡ mid
slice-append i n pre mid post h k =
    ap (take n) (drop-append i pre (mid ++ post) h) ∙ take-append n mid post k

drop-nil {ℓ} : {A : Type ℓ} (b : ℕ) → drop {A = A} b [] ≡ []
drop-nil zero = refl
drop-nil (suc b) = refl

suc_add : (a b : ℕ) → suc a + b ≡ suc (a + b)
suc_add a b = omega arith

drop-drop {ℓ} : {A : Type ℓ} (a b : ℕ) (xs : List A) → drop (a + b) xs ≡ drop b (drop a xs)
drop-drop zero b xs = let e : 0 + b ≡ b = omega arith in rw e
drop-drop (suc a) b [] = rw (suc_add a b) (sym (drop-nil b))
drop-drop (suc a) b (x ∷ xs) = rw (suc_add a b) (drop-drop a b xs)

-- Walking over a known piece of a list.
pub drop_step {ℓ} :
    {A : Type ℓ} (a b : ℕ) (xs pre post : List A)
    → drop a xs ≡ pre ++ post
    → length pre ≡ b
    → drop (a + b) xs ≡ post
drop_step a b xs pre post h k = drop-drop a b xs ∙ ap (drop b) h ∙ drop-append b pre post k

to_be-from_be_onto :
    (w acc : ℕ) (bs : List ℕ)
    → All (λ b. b < 256) bs
    → to_be (w + length bs) (from_be_onto acc bs) ≡ to_be w acc ++ bs
unfolding from_be_onto to_be
to_be-from_be_onto w acc [] v =
    let n : w + 0 ≡ w = omega arith in ap (λ k. to_be k acc) n ∙ sym (append-nil (to_be w acc))
to_be-from_be_onto w acc (b ∷ bs) v =
    let n : w + suc (length bs) ≡ suc w + length bs = omega arith in
    let q : (acc * 256 + b) / 256 ≡ acc = omega (arith, v.0) in
    let r : (acc * 256 + b) % 256 ≡ b = omega (arith, v.0) in
    ap (λ k. to_be k (from_be_onto (acc * 256 + b) bs)) n
    ∙ to_be-from_be_onto (suc w) (acc * 256 + b) bs v.1
    ∙ rw (q, r) (append_assoc (to_be w acc) (b ∷ []) bs)

-- Bytes are the encoding of the number that they encode.
pub to_be-from_be : (bs : List ℕ) → All (λ b. b < 256) bs → to_be (length bs) (from_be bs) ≡ bs
unfolding from_be to_be
to_be-from_be bs v =
    let n : length bs ≡ 0 + length bs = omega arith in
    ap (λ k. to_be k (from_be_onto 0 bs)) n ∙ to_be-from_be_onto 0 0 bs v
