-- ===== src/Journal/Appends.antt =====
-- What a journal holds after its appends, and after it is opened again.
use lunet_locks.Prelude.{
  ℕ, ◌+◌, ◌*◌, ◌%◌, ◌^◌, ◌≤◌, ◌<◌, ◌≡◌, refl, sym, ◌∙◌, true, false, Option, none, some, List, [],
  ◌∷◌, ◌++◌, append_assoc, append-nil, arith, leb, length, length-append,
}
use lunet_locks.Journal.Record.{record_size, JournalEvent, encode}
use lunet_locks.Journal.FileParse.{encode_all}
use lunet_locks.Journal.Window.{Window, meta_of, note, note_all, note_all-append}
use lunet_locks.Journal.Files.{no_faults, RolledFile, Journal, rename_onto, count_and_roll, append}

-- The open file holds the encoded events since the last roll, and nothing else, and the journal's
-- bookkeeping is theirs.
pub record Holds (j : Journal) (es : List JournalEvent) : Type 0 where
  pub live : j.is_live ≡ true
  pub bytes : j.open_bytes ≡ encode_all es
  pub counted : j.written ≡ 61 * length es
  pub windowed : j.window ≡ note_all none es

pub encode_all-concat :
    (es : List JournalEvent) (e : JournalEvent)
    → encode_all (es ++ e ∷ []) ≡ encode_all es ++ encode e
encode_all-concat [] e = append-nil (encode e)
encode_all-concat (f ∷ es) e =
    rw (encode_all-concat es e) (sym (append_assoc (encode f) (encode_all es) (encode e)))

note_all-concat :
    (es : List JournalEvent) (e : JournalEvent)
    → note_all none (es ++ e ∷ []) ≡ note (note_all none es) e
note_all-concat es e = note_all-append none es (e ∷ []) ∙ (unfold note_all in refl)

note-some : (w : Option Window) (e : JournalEvent) → (v : Window) × (note w e ≡ some v)
unfolding note
note-some none e = (_, refl)
note-some (some w) e = (_, refl)

-- The file that a roll leaves behind.
abbrev pub rolled_file : Window → List JournalEvent → RolledFile
rolled_file w es = record { name = meta_of w; bytes = encode_all es; metafile = some (meta_of w) }

-- The journal behind a faultless write.
abbrev pub wrote : Journal → JournalEvent → Journal
wrote j e = record j {
  open_bytes = j.open_bytes ++ encode e;
  written = (j.written + record_size) % 2 ^ 64;
  window = note j.window e;
}

pub append_below :
    (j : Journal) (e : JournalEvent)
    → j.is_live ≡ true
    → leb j.roll_bytes ((j.written + record_size) % 2 ^ 64) ≡ false
    → append j e no_faults ≡ (wrote j e, true)
unfolding append count_and_roll
append_below j e l h = rw (l, h)

append_rolls :
    (j : Journal) (e : JournalEvent) (w : Window)
    → j.is_live ≡ true
    → leb j.roll_bytes ((j.written + record_size) % 2 ^ 64) ≡ true
    → note j.window e ≡ some w
    → append j e no_faults ≡ (
      record j {
        open_bytes = [];
        is_live = true;
        written = 0;
        window = none;
        rolled = rename_onto j.rolled (record {
          name = meta_of w;
          bytes = j.open_bytes ++ encode e;
          metafile = some (meta_of w);
        });
      },
      true,
    )
unfolding append count_and_roll
append_rolls j e w l h n = rw (l, h, n)

written-count :
    (j : Journal) (es : List JournalEvent) (e : JournalEvent)
    → Holds j es
    → 61 * length es + 61 < 2 ^ 64
    → (j.written + record_size) % 2 ^ 64 ≡ 61 * length (es ++ e ∷ [])
written-count j es e h fits = omega (arith, length-append es (e ∷ []), h.counted)

-- A faultless append below the roll size, to a journal that holds some events: it returns `Ok`, the
-- journal then holds one event more, and no file is rolled. The file's size fits a u64.
pub append-Holds :
    (j : Journal) (es : List JournalEvent) (e : JournalEvent)
    → Holds j es
    → 61 * length es + 61 < 2 ^ 64
    → 61 * length es + 61 < j.roll_bytes
    → let r = append j e no_faults in
      (r.1 ≡ true) × Holds r.0 (es ++ e ∷ []) × (r.0.rolled ≡ j.rolled)
append-Holds j es e h fits room =
    let n = written-count j es e h fits in
    rw (append_below j e h.live (below _ n)) (
      refl,
      record {
        live = h.live;
        bytes = rw h.bytes (sym (encode_all-concat es e));
        counted = n;
        windowed = rw h.windowed (sym (note_all-concat es e));
      },
      refl,
    )
  where
    below : (a : ℕ) → a ≡ 61 * length (es ++ e ∷ []) → leb j.roll_bytes a ≡ false
    below a n = ground (arith, length-append es (e ∷ []))

-- A faultless append that reaches the roll size, to a journal that holds some events: it returns
-- `Ok`, the open file is fresh, and among the rolled files, in place of any of its name, stands one
-- with all the events and the metafile of their window. The file's size fits a u64.
pub append-rolled :
    (j : Journal) (es : List JournalEvent) (e : JournalEvent)
    → Holds j es
    → 61 * length es + 61 < 2 ^ 64
    → j.roll_bytes ≤ 61 * length es + 61
    → let r = append j e no_faults in
      (r.1 ≡ true)
      × Holds r.0 []
      × ((w : Window) × (note_all none (es ++ e ∷ []) ≡ some w)
          × (r.0.rolled ≡ rename_onto j.rolled (rolled_file w (es ++ e ∷ []))))
append-rolled j es e h fits full =
    let n = written-count j es e h fits in
    let (w, some_w) = note-some j.window e in
    rw (append_rolls j e w h.live (over _ n) some_w) (
      refl,
      record { live = refl; bytes = refl; counted = refl; windowed = unfold note_all in refl },
      (
        w,
        note_all-concat es e ∙ rw (← h.windowed) some_w,
        rw h.bytes (rw (encode_all-concat es e)),
      ),
    )
  where
    over : (a : ℕ) → a ≡ 61 * length (es ++ e ∷ []) → leb j.roll_bytes a ≡ true
    over a n = ground (arith, length-append es (e ∷ []))
