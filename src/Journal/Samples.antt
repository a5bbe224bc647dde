-- ===== src/Journal/Samples.antt =====
-- Concrete events, for the tests of what handles them.
use lunet_locks.Prelude.{ℕ, ◌≡◌, refl, true, replicate, arith}
use lunet_locks.Journal.Record.{JournalEvent, is_kind}
use lunet_locks.Journal.RoundTrip.{IsEvent}

abbrev pub sample_event : ℕ → ℕ → JournalEvent
sample_event kind ts = record {
  kind = kind;
  ts = ts;
  lock_id = 7;
  lease_id = 70;
  holder = replicate 16 kind;
  expiry = 5000;
}

hold_known : is_kind 1 ≡ true
unfolding is_kind
hold_known = refl

break_known : is_kind 4 ≡ true
unfolding is_kind
break_known = refl

pub hold-IsEvent : IsEvent (sample_event 1 1001)
hold-IsEvent = record {
  kind_known = hold_known;
  ts_fits = omega arith;
  lock_id_fits = omega arith;
  lease_id_fits = omega arith;
  holder_width = refl;
  expiry_fits = omega arith;
}

pub break-IsEvent : IsEvent (sample_event 4 2000)
break-IsEvent = record {
  kind_known = break_known;
  ts_fits = omega arith;
  lock_id_fits = omega arith;
  lease_id_fits = omega arith;
  holder_width = refl;
  expiry_fits = omega arith;
}
