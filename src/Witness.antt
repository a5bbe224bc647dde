-- ===== src/Witness.antt =====
-- ext/advisory_lock/src/witness/mod.rs: the witness's two watermarks and its held sync points.
pub mod Order
pub mod Invariant
pub mod Answers
mod Tests
use lunet_locks.Prelude.{
  ℕ, Bool, true, false, not, ◌&&◌, ◌||◌, Option, none, some, List, [], ◌∷◌, ◌++◌, ltb, ◌==◌,
  if◌then◌else◌, keep, any,
}

pub record Frontier : Type 0 where
  pub era : ℕ
  pub view : ℕ
  pub slot : ℕ

-- The derived order: by era, then view, then slot.
unfoldable pub frontier_lt : Frontier → Frontier → Bool
frontier_lt a b =
    ltb a.era b.era
    || (a.era == b.era && (ltb a.view b.view || (a.view == b.view && ltb a.slot b.slot)))

unfoldable pub frontier_eq : Frontier → Frontier → Bool
frontier_eq a b = a.era == b.era && (a.view == b.view && a.slot == b.slot)

-- `a <= b`, the negation of `b < a` in a total order.
abbrev pub frontier_le : Frontier → Frontier → Bool
frontier_le a b = not (frontier_lt b a)

pub data SyncOutcome : Type 0 where
  acked force_flush held : SyncOutcome

pub record WitnessWatermarks : Type 0 where
  pub buffered : Option Frontier
  pub flushed : Option Frontier
  pub held_points : List Frontier

abbrev pub new : WitnessWatermarks
new = record { buffered = none; flushed = none; held_points = [] }

-- `mark.is_some_and(|mark| mark >= frontier)`.
abbrev pub covers : Option Frontier → Frontier → Bool
covers none f = false
covers (some m) f = frontier_le f m

-- `mark.is_none_or(|mark| mark < frontier)`.
abbrev pub is_below : Option Frontier → Frontier → Bool
is_below none f = true
is_below (some m) f = frontier_lt m f

unfoldable pub observe : WitnessWatermarks → Frontier → WitnessWatermarks
observe w f = if is_below w.buffered f then record w { buffered = some f } else w

pub resolve_at : Option Frontier → WitnessWatermarks → WitnessWatermarks × List Frontier
resolve_at none w = (w, [])
resolve_at (some mark) w = (
  record w { held_points = keep (λ p. not (frontier_le p mark)) w.held_points },
  keep (λ p. frontier_le p mark) w.held_points,
)

unfoldable pub resolve_held : WitnessWatermarks → WitnessWatermarks × List Frontier
unfolding resolve_at
resolve_held w = resolve_at w.flushed w

pub raise_at : Option Frontier → WitnessWatermarks → WitnessWatermarks
raise_at none w = w
raise_at (some mark) w = if is_below w.flushed mark then record w { flushed = some mark } else w

-- The first half of `flushed_through_buffer`: the flushed mark moves up to the buffered one.
unfoldable pub raise_flushed : WitnessWatermarks → WitnessWatermarks
unfolding raise_at
raise_flushed w = raise_at w.buffered w

unfoldable pub flushed_through_buffer : WitnessWatermarks → WitnessWatermarks × List Frontier
unfolding raise_flushed resolve_held
flushed_through_buffer w = resolve_held (raise_flushed w)

unfoldable pub sync_point : WitnessWatermarks → Frontier → WitnessWatermarks × SyncOutcome
sync_point w f =
    if covers w.flushed f
    then (w, acked)
    else if covers w.buffered f
    then (w, force_flush)
    else if any (frontier_eq f) w.held_points
    then (w, held)
    else (record w { held_points = w.held_points ++ f ∷ [] }, held)

-- What the driver does to the witness, and the points whose acknowledgement each call releases.
pub data Event : Type 0 where
  landed : Frontier → Event
  flushed_all : Event
  asked : Frontier → Event

unfoldable pub step : WitnessWatermarks → Event → WitnessWatermarks × List Frontier
step w (landed f) = (observe w f, [])
step w flushed_all = flushed_through_buffer w
step w (asked f) = ((sync_point w f).0, [])

unfoldable pub run : WitnessWatermarks → List Event → WitnessWatermarks × List Frontier
run w [] = (w, [])
run w (e ∷ es) =
    let (w', released) = step w e in let (last, later) = run w' es in (last, released ++ later)
