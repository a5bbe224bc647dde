-- ===== src/Feed/Tests.antt =====
-- The feed over concrete passes, and the theorems at such inputs.
use lunet_locks.Prelude.{ℕ, ◌≤◌, ◌≡◌, refl, true, false, some, List, [], ◌∷◌, ◌++◌, map, arith, All}
use lunet_locks.Journal.Record.{JournalEvent, bytes_eq}
use lunet_locks.Journal.Samples.{sample_event, hold-IsEvent, break-IsEvent}
use lunet_locks.Feed.Rescan.{View, MetaEntry, fresh_follower, rescan, rescan_all}
use lunet_locks.Feed.Follow.{events_sent}
use lunet_locks.Feed.Once.{
  Sighting, IsSighting, view_of, following, rescan_all-once, rescan-new_file,
}
use lunet_locks.Feed.Rolled.{rolled_names, times, rescan_all-rolled_once}
use lunet_locks.Feed.Prefixed.{PrefixedStream, poll_all, unread, poll_all-unread}

abbrev two_events : List JournalEvent
two_events = sample_event 1 1001 ∷ (sample_event 4 2000 ∷ [])

-- The file is seen with one record and a part of the second, then again, then whole.
abbrev sightings : List Sighting
sightings =
    record { whole = 1; tail = 76 ∷ []; metas = [] }
    ∷ (record { whole = 1; tail = 76 ∷ (75 ∷ []); metas = [] }
        ∷ (record { whole = 2; tail = []; metas = [] } ∷ []))

sightings-IsSighting : All (IsSighting two_events) sightings
sightings-IsSighting =
    ((omega arith, omega arith), ((omega arith, omega arith), ((omega arith, omega arith), tt)))

rescan_all-once_example :
    events_sent (rescan_all (map (view_of (1 ∷ []) two_events) sightings) fresh_follower).0
    ≡ two_events
rescan_all-once_example =
    rescan_all-once (1 ∷ []) two_events sightings (hold-IsEvent, (break-IsEvent, tt))
      sightings-IsSighting

abbrev whole_sighting : Sighting
whole_sighting = record { whole = 2; tail = []; metas = [] }

names_differ : bytes_eq (1 ∷ []) (2 ∷ []) ≡ false
unfolding bytes_eq
names_differ = refl

-- The feed had come to byte 61 of the file before.
rescan-new_file_example :
    events_sent (rescan (view_of (2 ∷ []) two_events whole_sighting) (following (1 ∷ []) 61 [])).0
    ≡ two_events
rescan-new_file_example =
    rescan-new_file (1 ∷ []) (2 ∷ []) two_events whole_sighting 61 []
      (hold-IsEvent, (break-IsEvent, tt)) (omega arith, omega arith) names_differ

abbrev rolled_entry : MetaEntry
rolled_entry = record {
  name = 9 ∷ [];
  has_bin = true;
  decoded = some (record { op_min = 1; op_max = 2; expiry_min = 3; expiry_max = 4; count = 5 });
}

-- The rolled file is seen behind two rolls.
abbrev rolls : List View
rolls =
    record { open_file = some (1 ∷ [], some []); metas = rolled_entry ∷ [] }
    ∷ (record { open_file = some (2 ∷ [], some []); metas = rolled_entry ∷ [] } ∷ [])

rescan_all-rolled_once_example :
    times (9 ∷ []) (rolled_names (rescan_all rolls fresh_follower).0) ≤ 1
rescan_all-rolled_once_example = rescan_all-rolled_once rolls (9 ∷ [])

abbrev stream : PrefixedStream
stream = record { prefix = 1 ∷ (2 ∷ (3 ∷ [])); position = 0; inner = 4 ∷ (5 ∷ []) }

abbrev polls : List (ℕ × ℕ)
polls = (2, 0) ∷ ((2, 0) ∷ ((8, 1) ∷ []))

poll_all-unread_example :
    (poll_all polls stream).0 ++ unread (poll_all polls stream).1 ≡ 1 ∷ (2 ∷ (3 ∷ (4 ∷ (5 ∷ []))))
poll_all-unread_example = poll_all-unread polls stream
