-- ===== src/Journal/Files.antt =====
-- The open file, its roll and its resumption. The disk is a parameter: which calls fail, and how many
-- bytes a failed write leaves. File names are the ranges that they are made of.
use lunet_locks.Prelude.{
  ℕ, zero, suc, ◌+◌, ◌%◌, ◌^◌, Bool, true, false, not, ◌&&◌, ◌||◌, Option, none, some, List, [],
  ◌∷◌, ◌++◌, ltb, leb, ◌==◌, if◌then◌else◌, length, take, drop, keep,
}
use lunet_locks.Journal.Record.{record_size, JournalEvent, Meta, encode, parse_record}
use lunet_locks.Journal.Window.{Window, note, meta_of}

-- What the disk does during one append. `written` is `none` where the write succeeds, and else the
-- number of bytes that landed.
pub record Faults : Type 0 where
  pub short_write : Option ℕ
  pub flushed : Bool
  pub renamed : Bool
  pub meta_written : Bool
  pub created : Bool

abbrev pub no_faults : Faults
no_faults = record {
  short_write = none;
  flushed = true;
  renamed = true;
  meta_written = true;
  created = true;
}

-- A rolled file: the ranges in its name, its bytes, and the metafile beside it.
pub record RolledFile : Type 0 where
  pub name : Meta
  pub bytes : List ℕ
  pub metafile : Option Meta

pub record Journal : Type 0 where
  pub roll_bytes : ℕ
  pub open_bytes : List ℕ
  pub is_live : Bool
  pub written : ℕ
  pub window : Option Window
  pub rolled : List RolledFile

-- The name has the ranges and not the count.
abbrev pub same_name : Meta → Meta → Bool
same_name a b =
    a.op_min == b.op_min
    && (a.op_max == b.op_max && (a.expiry_min == b.expiry_min && a.expiry_max == b.expiry_max))

-- The metafile beside the files of a name.
abbrev pub standing_metafile : Meta → List RolledFile → Option Meta
standing_metafile m [] = none
standing_metafile m (g ∷ gs) =
    let rest = standing_metafile m gs in if same_name m g.name then g.metafile else rest

-- What is written beside a file, or else what stood there.
abbrev pub metafile_behind : Option Meta → Option Meta → Option Meta
metafile_behind none stood = stood
metafile_behind (some m) stood = some m

-- `rename` replaces a file of the same name, but not the metafile beside it.
unfoldable pub rename_onto : List RolledFile → RolledFile → List RolledFile
rename_onto files f =
    keep (λ g. not (same_name f.name g.name)) files
    ++ record f { metafile = metafile_behind f.metafile (standing_metafile f.name files) } ∷ []

-- `roll` behind the rename: the metafile, then a fresh open file. Between the two the handle is the
-- read-only placeholder.
roll_as : Journal → Faults → Meta → Journal × Bool
roll_as j faults m =
    if not faults.renamed
    then (record j { is_live = false }, false)
    else let metafile = if faults.meta_written then some m else none in
      let moved =
        rename_onto j.rolled (record { name = m; bytes = j.open_bytes; metafile = metafile }) in
      if not (faults.meta_written && faults.created)
      then (record j { open_bytes = []; is_live = false; rolled = moved }, false)
      else (
        record j { open_bytes = []; is_live = true; written = 0; window = none; rolled = moved },
        true,
      )

roll_window : Option Window → Journal → Faults → Journal × Bool
roll_window none j faults = (j, true)
roll_window (some w) j faults = roll_as j faults (meta_of w)

unfoldable pub roll : Journal → Faults → Journal × Bool
unfolding roll_window roll_as meta_of
roll j faults = roll_window j.window j faults

-- `append` behind the write and the flush.
unfoldable pub count_and_roll : Journal → JournalEvent → Faults → Journal × Bool
unfolding roll
count_and_roll j e faults =
    let j' = record j { window = note j.window e; written = (j.written + record_size) % 2 ^ 64 } in
    if leb j'.roll_bytes j'.written then roll j' faults else (j', true)

write_event : Option ℕ → Journal → JournalEvent → Faults → Journal × Bool
write_event (some n) j e faults =
    (record j { open_bytes = j.open_bytes ++ take n (encode e) }, false)
write_event none j e faults =
    let j' = record j { open_bytes = j.open_bytes ++ encode e } in
    if not faults.flushed then (j', false) else count_and_roll j' e faults

-- The flag says that the call returned `Ok`. A write to the placeholder fails.
unfoldable pub append : Journal → JournalEvent → Faults → Journal × Bool
unfolding count_and_roll write_event
append j e faults = if not j.is_live then (j, false) else write_event faults.short_write j e faults

-- The loop of `open_on` over the bytes of the open file that it finds.
unfoldable pub scan : ℕ → ℕ → ℕ → List ℕ → Option Window → ℕ × Option Window
unfolding note
scan zero roll_bytes scanned bytes w = (scanned, w)
scan (suc fuel) roll_bytes scanned bytes w =
    if ltb roll_bytes (scanned + record_size) || ltb (length bytes) record_size
    then (scanned, w)
    else elim (parse_record (take 61 bytes)) [
      | some (e, n) ↦ scan fuel roll_bytes (scanned + record_size) (drop 61 bytes) (note w e)
      | none ↦ (scanned, w)
    ]

-- `open_on` where an open file is found: the scan, then a seek to the end.
unfoldable pub resume : ℕ → List ℕ → List RolledFile → Journal
unfolding scan
resume roll_bytes bytes rolled =
    let (scanned, w) = scan (length bytes) roll_bytes 0 bytes none in
    record {
      roll_bytes = roll_bytes;
      open_bytes = bytes;
      is_live = true;
      written = scanned;
      window = w;
      rolled = rolled;
    }

-- `open_on` where none is found.
abbrev pub create : ℕ → List RolledFile → Journal
create roll_bytes rolled = record {
  roll_bytes = roll_bytes;
  open_bytes = [];
  is_live = true;
  written = 0;
  window = none;
  rolled = rolled;
}
