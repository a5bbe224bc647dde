-- ===== src/Journal/Resume.antt =====
-- Opening a journal over the open file that an earlier process left.
use lunet_locks.Prelude.{
  ℕ, zero, suc, ◌+◌, ◌*◌, ◌%◌, ◌^◌, ◌≤◌, ◌<◌, ◌≡◌, refl, ap, ◌∙◌, ◌⊎◌, inl, inr, true, false, ◌||◌,
  Option, none, some, List, [], ◌∷◌, ◌++◌, append_assoc, append-nil, arith, ltb, leb, length, take,
  length-append, drop-append, take-append, All,
}
use lunet_locks.Journal.Record.{record_size, JournalEvent, encode, parse_record, parse_file}
use lunet_locks.Journal.RoundTrip.{IsEvent, length-encode, parse_record-encode}
use lunet_locks.Journal.FileParse.{encode_all, parse_file_tail}
use lunet_locks.Journal.Window.{Window, note, note_all}
use lunet_locks.Journal.Files.{no_faults, RolledFile, Journal, append, scan, resume}
use lunet_locks.Journal.Appends.{Holds, append_below}

-- The scan stops in front of these bytes: a whole record is not there, or it does not parse.
abbrev pub Stops : List ℕ → Type 0
Stops tail = (length tail < 61) ⊎ (parse_record (take 61 tail) ≡ none)

scan-Stops :
    (fuel roll_bytes scanned : ℕ) (tail : List ℕ) (w : Option Window)
    → Stops tail
    → scan fuel roll_bytes scanned tail w ≡ (scanned, w)
unfolding scan
scan-Stops zero roll_bytes scanned tail w s = refl
scan-Stops (suc fuel) roll_bytes scanned tail w (inl short) = ground arith
scan-Stops (suc fuel) roll_bytes scanned tail w (inr bad) = rw bad (ground arith)

scan-encode :
    (fuel roll_bytes scanned : ℕ) (e : JournalEvent) (rest : List ℕ) (w : Option Window)
    → IsEvent e
    → scanned + 61 ≤ roll_bytes
    → scan (suc fuel) roll_bytes scanned (encode e ++ rest) w
      ≡ scan fuel roll_bytes (scanned + 61) rest (note w e)
unfolding scan
scan-encode fuel roll_bytes scanned e rest w v fits =
    let len = length-encode e v.holder_width in
    let room : (ltb roll_bytes (scanned + record_size)
          || ltb (length (encode e ++ rest)) record_size)
        ≡ false =
      has_room _ _ fits (omega (arith, length-append (encode e) rest, len)) in
    let p : parse_record (take 61 (encode e ++ rest)) ≡ some (e, record_size) =
      ap parse_record (take-append 61 (encode e) rest len) ∙ parsed e v in
    rw (room, p, drop-append 61 (encode e) rest len)
  where
    has_room : (a n : ℕ) → a ≤ roll_bytes → 61 ≤ n → (ltb roll_bytes a || ltb n record_size) ≡ false
    has_room a n h k = ground arith

    parsed : (e : JournalEvent) → IsEvent e → parse_record (encode e) ≡ some (e, record_size)
    parsed e v = rw append-nil at (parse_record-encode e [] v)

scan-encode_all :
    (es : List JournalEvent) (fuel roll_bytes scanned : ℕ) (tail : List ℕ) (w : Option Window)
    → All IsEvent es
    → Stops tail
    → scanned + 61 * length es ≤ roll_bytes
    → length es ≤ fuel
    → scan fuel roll_bytes scanned (encode_all es ++ tail) w
      ≡ (scanned + 61 * length es, note_all w es)
unfolding note_all
scan-encode_all [] fuel roll_bytes scanned tail w v s fits f =
    scan-Stops fuel roll_bytes scanned tail w s ∙ ap (λ n. (n, w)) (omega arith)
scan-encode_all (e ∷ es) zero roll_bytes scanned tail w v s fits f = absurd (omega arith)
scan-encode_all (e ∷ es) (suc fuel) roll_bytes scanned tail w v s fits f = rw append_assoc (
    scan-encode fuel roll_bytes scanned e (encode_all es ++ tail) w v.0 (omega arith)
    ∙ scan-encode_all es fuel roll_bytes (scanned + 61) tail (note w e) v.1 s (omega arith)
        (omega arith)
    ∙ ap (λ n. (n, note_all (note w e) es)) (omega arith))

length-encode_all :
    (es : List JournalEvent) (tail : List ℕ)
    → All IsEvent es
    → length es ≤ length (encode_all es ++ tail)
length-encode_all [] tail v = omega arith
length-encode_all (e ∷ es) tail v = omega (
  arith,
  length-append (encode e ++ encode_all es) tail,
  length-append (encode_all es) tail,
  length-append (encode e) (encode_all es),
  length-encode e v.0.holder_width,
  length-encode_all es tail v.1,
)

scan_whole :
    (es : List JournalEvent) (tail : List ℕ) (roll_bytes : ℕ)
    → All IsEvent es
    → Stops tail
    → 61 * length es ≤ roll_bytes
    → scan (length (encode_all es ++ tail)) roll_bytes 0 (encode_all es ++ tail) none
      ≡ (61 * length es, note_all none es)
scan_whole es tail roll_bytes v s fits =
    scan-encode_all es _ roll_bytes 0 tail none v s (omega arith) (length-encode_all es tail v)
    ∙ ap (λ n. (n, note_all none es)) (omega arith)

-- Opening a journal again over a file of encoded events, not longer than the roll size, restores the
-- journal that holds them: its count of bytes and its window are those of the events.
pub resume-Holds :
    (es : List JournalEvent) (roll_bytes : ℕ) (rolled : List RolledFile)
    → All IsEvent es
    → 61 * length es ≤ roll_bytes
    → Holds (resume roll_bytes (encode_all es) rolled) es
unfolding resume
resume-Holds es roll_bytes rolled v fits =
    let s =
      rw (append-nil (encode_all es)) at (scan_whole es [] roll_bytes v (inl (omega arith)) fits) in
    record {
      live = refl;
      bytes = refl;
      counted = ap (λ (p : ℕ × Option Window). p.0) s;
      windowed = ap (λ (p : ℕ × Option Window). p.1) s;
    }

-- Opening a journal again over a file that ends in bytes at which the scan stops, and appending an
-- event that these bytes keep from being parsed: the append returns `Ok`, and the open file still
-- parses to the earlier events alone. The file stays below the roll size, which fits a u64.
pub torn_tail_loses :
    (es : List JournalEvent) (tail : List ℕ) (e : JournalEvent) (roll_bytes : ℕ)
    (rolled : List RolledFile)
    → All IsEvent es
    → Stops tail
    → parse_record (tail ++ encode e) ≡ none
    → 61 * length es + 61 < roll_bytes
    → roll_bytes < 2 ^ 64
    → let r = append (resume roll_bytes (encode_all es ++ tail) rolled) e no_faults in
      (r.1 ≡ true) × (parse_file r.0.open_bytes ≡ es)
unfolding resume
torn_tail_loses es tail e roll_bytes rolled v s bad below fits =
    let j : Journal = resume roll_bytes (encode_all es ++ tail) rolled in
    let n : j.written ≡ 61 * length es =
      ap (λ (p : ℕ × Option Window). p.0) (scan_whole es tail roll_bytes v s (omega arith)) in
    rw (append_below j e refl (under _ _ n below fits)) (
      refl,
      rw (append_assoc (encode_all es) tail (encode e))
          (parse_file_tail es (tail ++ encode e) v bad),
    )
  where
    under :
        (a b : ℕ)
        → a ≡ b
        → b + 61 < roll_bytes
        → roll_bytes < 2 ^ 64
        → leb roll_bytes ((a + record_size) % 2 ^ 64) ≡ false
    under a b h k f = ground arith
