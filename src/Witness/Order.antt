-- ===== src/Witness/Order.antt =====
-- The lexicographic order of frontiers is a total order, and what a mark covers grows with it.
use lunet_locks.Prelude.{true, false, ◌≡◌, Option, none, some, arith}
use lunet_locks.Witness.{Frontier, frontier_lt, frontier_eq, frontier_le, covers, is_below}

pub frontier_le_refl : (a : Frontier) → frontier_le a a ≡ true
unfolding frontier_lt
frontier_le_refl a = ground arith

pub frontier_le_trans :
    (a b c : Frontier) → frontier_le a b ≡ true → frontier_le b c ≡ true → frontier_le a c ≡ true
unfolding frontier_lt
frontier_le_trans a b c h k = ground arith

pub frontier_lt-le : (a b : Frontier) → frontier_lt a b ≡ true → frontier_le a b ≡ true
unfolding frontier_lt
frontier_lt-le a b h = ground arith

pub frontier_eq_sound : (a b : Frontier) → frontier_eq a b ≡ true → a ≡ b
unfolding frontier_eq
frontier_eq_sound a b h = ground arith

pub frontier_eq_refl : (a : Frontier) → frontier_eq a a ≡ true
unfolding frontier_eq
frontier_eq_refl a = ground arith

-- A mark is absent, or present and not above the other.
abbrev pub IsUpTo : Option Frontier → Option Frontier → Type 0
IsUpTo none n = Unit
IsUpTo (some a) none = ⊥
IsUpTo (some a) (some b) = frontier_le a b ≡ true

pub IsUpTo-refl : (m : Option Frontier) → IsUpTo m m
IsUpTo-refl none = tt
IsUpTo-refl (some a) = frontier_le_refl a

pub IsUpTo-trans : (m n o : Option Frontier) → IsUpTo m n → IsUpTo n o → IsUpTo m o
IsUpTo-trans none n o h k = tt
IsUpTo-trans (some a) none o h k = elim h [ ]
IsUpTo-trans (some a) (some b) none h k = elim k [ ]
IsUpTo-trans (some a) (some b) (some c) h k = frontier_le_trans a b c h k

-- A mark that is raised to a frontier it lies below stands above where it stood.
pub is_below-IsUpTo : (m : Option Frontier) (f : Frontier) → is_below m f ≡ true → IsUpTo m (some f)
is_below-IsUpTo none f h = tt
is_below-IsUpTo (some a) f h = frontier_lt-le a f h

pub not-is_below-IsUpTo :
    (m : Option Frontier) (f : Frontier) → is_below m f ≡ false → IsUpTo (some f) m
not-is_below-IsUpTo none f h = ground arith
not-is_below-IsUpTo (some a) f h = ground arith

pub covers_mono :
    (m n : Option Frontier) (f : Frontier) → IsUpTo m n → covers m f ≡ true → covers n f ≡ true
covers_mono none n f h k = ground arith
covers_mono (some a) none f h k = elim h [ ]
covers_mono (some a) (some b) f h k = frontier_le_trans f a b k h
