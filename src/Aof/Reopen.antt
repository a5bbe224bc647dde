-- ===== src/Aof/Reopen.antt =====
-- Opening the log over what a stopped process left.
use lunet_locks.Prelude.{
  ℕ, zero, suc, ◌+◌, ◌*◌, ◌≤◌, ◌≡◌, refl, sym, ap, ◌∙◌, subst, inl, inr, false, Bool-cases, Option,
  none, some, List, [], ◌∷◌, ◌++◌, append_assoc, append-nil, arith, ltb, length, take,
  length-append, take-append, drop-append, All,
}
use lunet_locks.Journal.Record.{record_size, JournalEvent, encode, parse_record}
use lunet_locks.Journal.RoundTrip.{IsEvent, length-encode, parse_record-encode}
use lunet_locks.Journal.FileParse.{encode_all, length-encode_all}
use lunet_locks.Journal.Window.{Window, note, note_all}
use lunet_locks.Journal.Files.{RolledFile}
use lunet_locks.Journal.Resume.{Stops}
use lunet_locks.Aof.Core.{scan, open_on, adopted}
use lunet_locks.Aof.Log.{Log, file_events, files_from, Represents}

scan-Stops :
    (fuel scanned : ℕ) (tail : List ℕ) (w : Option Window)
    → Stops tail
    → scan fuel scanned tail w ≡ (scanned, w)
unfolding scan
scan-Stops zero scanned tail w s = refl
scan-Stops (suc fuel) scanned tail w (inl short) = ground arith
scan-Stops (suc fuel) scanned tail w (inr bad) = rw bad (ground arith)

scan-encode :
    (fuel scanned : ℕ) (e : JournalEvent) (rest : List ℕ) (w : Option Window)
    → IsEvent e
    → scan (suc fuel) scanned (encode e ++ rest) w ≡ scan fuel (scanned + 61) rest (note w e)
unfolding scan
scan-encode fuel scanned e rest w v =
    let len = length-encode e v.holder_width in
    let long : ltb (length (encode e ++ rest)) record_size ≡ false =
      not_short _ (omega (arith, length-append (encode e) rest, len)) in
    let p : parse_record (take 61 (encode e ++ rest)) ≡ some (e, record_size) =
      ap parse_record (take-append 61 (encode e) rest len)
      ∙ (ap parse_record (sym (append-nil (encode e))) ∙ parse_record-encode e [] v) in
    rw (long, p, drop-append 61 (encode e) rest len)
  where
    not_short : (n : ℕ) → 61 ≤ n → ltb n record_size ≡ false
    not_short n h = ground arith

scan-encode_all :
    (es : List JournalEvent) (fuel scanned : ℕ) (tail : List ℕ) (w : Option Window)
    → All IsEvent es
    → Stops tail
    → length es ≤ fuel
    → scan fuel scanned (encode_all es ++ tail) w ≡ (scanned + 61 * length es, note_all w es)
scan-encode_all [] fuel scanned tail w v s f =
    scan-Stops fuel scanned tail w s ∙ (unfold note_all in ap (λ n. (n, w)) (same scanned))
  where
    same : (n : ℕ) → n ≡ n + 61 * 0
    same n = omega arith
scan-encode_all (e ∷ es) zero scanned tail w v s f = absurd (omega (arith, f))
scan-encode_all (e ∷ es) (suc fuel) scanned tail w v s f =
    ap (λ bs. scan (suc fuel) scanned bs w) (append_assoc (encode e) (encode_all es) tail)
    ∙ (scan-encode fuel scanned e (encode_all es ++ tail) w v.0
        ∙ (scan-encode_all es fuel (scanned + 61) tail (note w e) v.1 s (omega (arith, f))
            ∙ (unfold note_all in ap (λ n. (n, note_all (note w e) es)) (further (length es)))))
  where
    further : (n : ℕ) → scanned + 61 + 61 * n ≡ scanned + 61 * suc n
    further n = omega arith

adopted_whole :
    (flush_bytes : ℕ) (whole tail : List ℕ) (rolled : List RolledFile) (n : ℕ) (w : Option Window)
    → length whole ≡ n
    → (adopted flush_bytes (whole ++ tail) rolled (n, w)).sink.content ≡ whole
adopted_whole flush_bytes whole tail rolled n w h =
    elim (Bool-cases (ltb n (length (whole ++ tail)))) [
      | inl e ↦ rw e (take-append n whole tail h)
      | inr e ↦
          let none_left : tail ≡ [] =
            empty tail (omega (arith, no_more e, h, length-append whole tail)) in
          rw e (ap (λ t. whole ++ t) none_left ∙ append-nil whole)
    ]
  where
    empty : (xs : List ℕ) → length xs ≤ 0 → xs ≡ []
    empty [] k = refl
    empty (x ∷ xs) k = absurd (omega (arith, k))

    no_more : ltb n (length (whole ++ tail)) ≡ false → length (whole ++ tail) ≤ n
    no_more e = ground arith

-- Opening over whole records and any tail that is no record, torn or zeros or corrupt, cuts the tail off
-- and goes on behind the records.
pub open_on-Represents :
    (flush_bytes : ℕ) (log : Log) (tail : List ℕ)
    → All IsEvent log.current
    → length log.current ≤ file_events
    → Stops tail
    → Represents log
        (open_on flush_bytes (some (encode_all log.current ++ tail)) (files_from [] log.finished))
unfolding open_on
open_on-Represents flush_bytes log tail v fits s =
    let es : List JournalEvent = log.current in
    let len = length-encode_all es v in
    let scanned : scan (length (encode_all es ++ tail)) 0 (encode_all es ++ tail) none
        ≡ (61 * length es, note_all none es) =
      scan-encode_all es (length (encode_all es ++ tail)) 0 tail none v s
        (omega (arith, len, length-append (encode_all es) tail))
      ∙ ap (λ n. (n, note_all none es)) (from_zero (length es)) in
    subst
      (λ p.
        Represents log (adopted flush_bytes (encode_all es ++ tail) (files_from [] log.finished) p))
      (sym scanned)
      (let whole =
          adopted_whole flush_bytes (encode_all es) tail (files_from [] log.finished)
            (61 * length es) (note_all none es) len in
        record {
          bytes_same = append-nil _ ∙ whole;
          at_end = sym (ap (λ xs. length xs) whole ∙ len);
          counted = refl;
          fits = fits;
          window_same = refl;
          files_same = refl;
          opened = refl;
          valid = v;
        })
  where
    from_zero : (n : ℕ) → 0 + 61 * n ≡ 61 * n
    from_zero n = omega arith
