-- ===== src/Feed/Rescan.antt =====
-- The rescan task: one pass over the directory for every wake-up. What a pass sees of the directory is
-- its argument; names are their bytes.
use lunet_locks.Prelude.{
  ℕ, zero, suc, ◌+◌, Bool, true, not, ◌||◌, Option, none, some, List, [], ◌∷◌, ◌++◌, map, ltb, leb,
  if◌then◌else◌, length, drop, any,
}
use lunet_locks.Journal.Record.{record_size, JournalEvent, Meta, bytes_eq, parse_record, parse_file}

-- A directory entry whose name ends in `.meta`: whether the file of that name in `.bin` is there, and
-- what its metafile decodes to, if it reads at all.
pub record MetaEntry : Type 0 where
  pub name : List ℕ
  pub has_bin : Bool
  pub decoded : Option Meta

-- The first open file's name with its bytes, `none` for bytes that do not read, and the `.meta` entries,
-- none where the directory does not read.
pub record View : Type 0 where
  pub open_file : Option (List ℕ × Option (List ℕ))
  pub metas : List MetaEntry

-- `RolledJson`, with the metafile's name for the file's.
pub data FeedMsg : Type 0 where
  event : JournalEvent → FeedMsg
  rolled : List ℕ → Meta → List ℕ → FeedMsg

pub record Follower : Type 0 where
  pub current_open : Option (List ℕ)
  pub current_offset : ℕ
  pub reported_rolled : List (List ℕ)

abbrev pub fresh_follower : Follower
fresh_follower = record { current_open = none; current_offset = 0; reported_rolled = [] }

-- The loop over the new bytes: the events, and how far it came. The fuel is the number of bytes.
unfoldable pub read_new : ℕ → List ℕ → List JournalEvent × ℕ
read_new zero bytes = ([], 0)
read_new (suc fuel) bytes =
    if ltb (length bytes) record_size then ([], 0) else elim (parse_record bytes) [
      | some (e, consumed) ↦
          let (es, off) = read_new fuel (drop consumed bytes) in (e ∷ es, consumed + off)
      | none ↦ ([], 0)
    ]

-- The loop over the `.meta` entries behind a roll: the messages, and the names reported by then.
abbrev pub report_entry :
    List ℕ → MetaEntry → List (List ℕ) → Option Meta → List FeedMsg × List (List ℕ)
report_entry next m reported none = ([], reported)
report_entry next m reported (some meta) =
    if any (bytes_eq m.name) reported || not m.has_bin
    then ([], reported)
    else (rolled m.name meta next ∷ [], m.name ∷ reported)

unfoldable pub report_rolled :
    List ℕ → List MetaEntry → List (List ℕ) → List FeedMsg × List (List ℕ)
report_rolled next [] reported = ([], reported)
report_rolled next (m ∷ ms) reported =
    let (first, reported') = report_entry next m reported m.decoded in
    let (rest, reported'') = report_rolled next ms reported' in (first ++ rest, reported'')

-- The part of a pass behind the roll detection: the new bytes of the open file.
abbrev pub follow_open : Option (List ℕ) → ℕ → List FeedMsg × ℕ
follow_open none offset = ([], offset)
follow_open (some bytes) offset =
    if leb (length bytes) offset
    then ([], offset)
    else let (es, off) = read_new (length bytes) (drop offset bytes) in (map event es, offset + off)

abbrev pub is_roll : Option (List ℕ) → List ℕ → Bool
is_roll none name = true
is_roll (some prev) name = not (bytes_eq prev name)

-- One pass: what it sends, and the follower behind it.
unfoldable pub rescan : View → Follower → List FeedMsg × Follower
unfolding read_new report_rolled
rescan view f = elim view.open_file [
  | none ↦ ([], f)
  | some (name, bytes) ↦
      let (announced, reported) =
        if is_roll f.current_open name
        then report_rolled name view.metas f.reported_rolled
        else ([], f.reported_rolled) in
      let (events, offset) =
        follow_open bytes (if is_roll f.current_open name then 0 else f.current_offset) in
      (
        announced ++ events,
        record { current_open = some name; current_offset = offset; reported_rolled = reported },
      )
]

unfoldable pub rescan_all : List View → Follower → List FeedMsg × Follower
unfolding rescan
rescan_all [] f = ([], f)
rescan_all (v ∷ vs) f =
    let (first, f') = rescan v f in let (rest, f'') = rescan_all vs f' in (first ++ rest, f'')

-- `read_backlog`: what a new client gets before the live feed.
unfoldable pub read_backlog : View → List FeedMsg
read_backlog view = elim view.open_file [
  | none ↦ []
  | some (name, bytes) ↦ elim bytes [ none ↦ [] | some bs ↦ map event (parse_file bs) ]
]
