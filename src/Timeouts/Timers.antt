-- ===== src/Timeouts/Timers.antt =====
-- The leader timeout and the view-change poll.
use lunet_locks.Prelude.{
  ℕ, ◌+◌, ◌-◌, ◌%◌, ◌^◌, ◌≤◌, ◌<◌, Bool, true, false, ◌&&◌, ◌≡◌, ◌⊎◌, inl, inr, Option, none, some,
  arith, ltb, leb, ◌==◌, if◌then◌else◌,
}
use lunet_locks.Timeouts.Float.{Float, random_wait_ms, random_wait_bounds}

-- The watched (era, leader).
pub record Key : Type 0 where
  pub era : ℕ
  pub leader : ℕ

pub record LeaderTimeout : Type 0 where
  pub min_ms : ℕ
  pub max_ms : ℕ
  pub watched : Option Key
  pub deadline_ms : ℕ
  pub last_evidence_ms : ℕ

abbrev pub new_leader_timeout : ℕ → ℕ → LeaderTimeout
new_leader_timeout lo hi = record {
  min_ms = lo;
  max_ms = hi;
  watched = none;
  deadline_ms = 0;
  last_evidence_ms = 0;
}

-- `self.watched == Some(key)`.
abbrev pub is_watching : Option Key → Key → Bool
is_watching none k = false
is_watching (some j) k = j.era == k.era && j.leader == k.leader

abbrev pub is_some {ℓ} : {A : Type ℓ} → Option A → Bool
is_some none = false
is_some (some a) = true

unfoldable pub leader_due : LeaderTimeout → ℕ → Bool
leader_due t now = is_some t.watched && leb t.deadline_ms now

pub record ViewChangeRange : Type 0 where
  pub range_min : ℕ
  pub range_max : ℕ

pub record ViewChangeTimer : Type 0 where
  pub min_ms : ℕ
  pub max_ms : ℕ
  pub deadline_ms : ℕ
  pub armed : Bool

-- `Ok` is `inr`, the range error `inl`.
unfoldable pub new_view_change_timer : ℕ → ℕ → ViewChangeRange ⊎ ViewChangeTimer
new_view_change_timer lo hi =
    if ltb hi lo
    then inl (record { range_min = lo; range_max = hi })
    else inr (record { min_ms = lo; max_ms = hi; deadline_ms = 0; armed = false })

unfoldable pub poll_due : ViewChangeTimer → ℕ → Bool
poll_due t now = t.armed && leb t.deadline_ms now

unfoldable pub disarm : ViewChangeTimer → ViewChangeTimer
disarm t = record t { armed = false }

module _ (float : Float) where
  open float use {F}

  unfoldable pub rearm : LeaderTimeout → ℕ → F → LeaderTimeout
  rearm t now unit = record t {
    deadline_ms = (now + random_wait_ms float t.min_ms t.max_ms unit) % 2 ^ 64;
    last_evidence_ms = now;
  }

  unfoldable pub watch : LeaderTimeout → Key → ℕ → F → LeaderTimeout
  unfolding rearm
  watch t key now unit =
      if is_watching t.watched key then t else rearm (record t { watched = some key }) now unit

  unfoldable pub arm : ViewChangeTimer → ℕ → F → ViewChangeTimer
  arm t now unit = record t {
    deadline_ms = (now + random_wait_ms float t.min_ms t.max_ms unit) % 2 ^ 64;
    armed = true;
  }

  -- Watching a new key at a time: the timeout is not due at a moment before its shortest wait has
  -- passed, is due at one from its longest on, and watches that key. The bounds are in order, at
  -- most 2^53 apart, and the latest deadline fits a u64.
  pub watch_window :
      (t : LeaderTimeout) (key : Key) (now early late : ℕ) (unit : F)
      → is_watching t.watched key ≡ false
      → t.min_ms ≤ t.max_ms
      → now + t.max_ms < 2 ^ 64
      → t.max_ms - t.min_ms ≤ 2 ^ 53
      → early < now + t.min_ms
      → now + t.max_ms ≤ late
      → (leader_due (watch t key now unit) early ≡ false)
        × (leader_due (watch t key now unit) late ≡ true)
        × (is_watching (watch t key now unit).watched key ≡ true)
  unfolding watch leader_due
  watch_window t key now early late unit n h u k p q =
      let b = random_wait_bounds float t.min_ms t.max_ms unit h (omega arith) k in
      (ground arith, ground arith, ground arith)

  -- Watching the key that is watched changes nothing, so traffic of a steady leader does not by
  -- itself put the deadline off.
  pub watch_again :
      (t : LeaderTimeout) (key : Key) (now then_ms : ℕ) (unit again : F)
      → watch (watch t key now unit) key then_ms again ≡ watch t key now unit
  unfolding watch
  watch_again t key now then_ms unit again = ground arith

  -- An armed poll is not due at a moment before its shortest wait has passed, is due at one from its
  -- longest on, and is not due then either once it is disarmed. The bounds are in order, at most
  -- 2^53 apart, and the latest deadline fits a u64.
  pub arm_window :
      (t : ViewChangeTimer) (now early late : ℕ) (unit : F)
      → t.min_ms ≤ t.max_ms
      → now + t.max_ms < 2 ^ 64
      → t.max_ms - t.min_ms ≤ 2 ^ 53
      → early < now + t.min_ms
      → now + t.max_ms ≤ late
      → (poll_due (arm t now unit) early ≡ false)
        × (poll_due (arm t now unit) late ≡ true)
        × (poll_due (disarm (arm t now unit)) late ≡ false)
  unfolding arm poll_due disarm
  arm_window t now early late unit h u k p q =
      let b = random_wait_bounds float t.min_ms t.max_ms unit h (omega arith) k in
      (ground arith, ground arith, ground arith)
