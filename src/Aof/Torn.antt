-- ===== src/Aof/Torn.antt =====
-- The file that a stopped process left, cut off anywhere: its whole records, and what reopening makes
-- of it.
use lunet_locks.Prelude.{
  ℕ, zero, suc, ◌+◌, ◌-◌, ◌*◌, ◌≤◌, ◌≡◌, ◌<◌, ◌⊎◌, refl, sym, ap, ◌∙◌, subst, inl, inr, true, false,
  Bool-cases, none, some, List, [], ◌∷◌, ◌++◌, append_assoc, arith, ltb, length, take, replicate,
  All,
}
use lunet_locks.Journal.Record.{record_size, JournalEvent, encode, bytes_eq, parse_record}
use lunet_locks.Journal.RoundTrip.{IsEvent, length-encode}
use lunet_locks.Journal.FileParse.{encode_all}
use lunet_locks.Journal.Resume.{Stops}
use lunet_locks.Aof.Core.{AofCore, open_on}
use lunet_locks.Aof.Log.{Log, file_events, Represents, Torn}
use lunet_locks.Aof.Reopen.{open_on-Represents}

-- Bytes cut off after `n`: the first events that are whole, and a tail in front of which a scan stops.
record Cut (es : List JournalEvent) (n : ℕ) (bytes : List ℕ) : Type 0 where
  whole : ℕ
  tail : List ℕ
  bytes_same : bytes ≡ encode_all (take whole es) ++ tail
  stops : Stops tail
  -- Only a record that was cut itself is lost.
  missing : (n < 61 * suc whole) ⊎ (take whole es ≡ es)
  bound : length (take whole es) ≤ length es

pub zero_head-Stops : (xs : List ℕ) → parse_record (0 ∷ xs) ≡ none
unfolding parse_record bytes_eq
zero_head-Stops xs = elim (Bool-cases (ltb (length (0 ∷ xs)) record_size)) [
  | inl e ↦ rw e
  | inr e ↦ rw e
]

zeros-Stops : (n z : ℕ) → Stops (take n (replicate z 0))
zeros-Stops zero z = inl (omega arith)
zeros-Stops (suc n) zero = inl (omega arith)
zeros-Stops (suc n) (suc z) = inr (zero_head-Stops (take 60 (take n (replicate z 0))))

take_shorter : (n : ℕ) (xs : List ℕ) → length (take n xs) ≤ n
take_shorter zero xs = omega arith
take_shorter (suc n) [] = omega arith
take_shorter (suc n) (x ∷ xs) = omega (arith, take_shorter n xs)

take_behind : (xs ys : List ℕ) (n : ℕ) → take (length xs + n) (xs ++ ys) ≡ xs ++ take n ys
take_behind [] ys n = ap (λ m. take m ys) zero_add
  where
    zero_add : 0 + n ≡ n
    zero_add = omega arith
take_behind (x ∷ xs) ys n =
    let m : length (x ∷ xs) + n ≡ suc (length xs + n) = omega arith in
    rw m (ap (◌∷◌ x) (take_behind xs ys n))

Cut-cons :
    (e : JournalEvent) (es : List JournalEvent) (n : ℕ) (bytes : List ℕ)
    → Cut es n bytes
    → Cut (e ∷ es) (61 + n) (encode e ++ bytes)
Cut-cons e es n bytes c = record {
  whole = suc c.whole;
  tail = c.tail;
  bytes_same =
      ap (λ xs. encode e ++ xs) c.bytes_same
      ∙ sym (append_assoc (encode e) (encode_all (take c.whole es)) c.tail);
  stops = c.stops;
  missing = elim c.missing [ inl h ↦ inl (omega (arith, h)) | inr h ↦ inr (ap (◌∷◌ e) h) ];
  bound = omega (arith, c.bound);
}

take-Cut :
    (es : List JournalEvent) (n z : ℕ)
    → All IsEvent es
    → Cut es n (take n (encode_all es ++ replicate z 0))
take-Cut [] n z v = record {
  whole = 0;
  tail = take n (replicate z 0);
  bytes_same = refl;
  stops = zeros-Stops n z;
  missing = inr refl;
  bound = omega arith;
}
take-Cut (e ∷ es) n z v = elim (Bool-cases (ltb n 61)) [
  | inl h ↦
      let less : n < 61 = below n h in
      record {
        whole = 0;
        tail = take n (encode_all (e ∷ es) ++ replicate z 0);
        bytes_same = refl;
        stops = inl (omega (arith, less, take_shorter n (encode_all (e ∷ es) ++ replicate z 0)));
        missing = inl (omega (arith, less));
        bound = omega arith;
      }
  | inr h ↦
      let len = length-encode e v.0.holder_width in
      let more : 61 + (n - 61) ≡ n = above n h in
      let behind : take n (encode_all (e ∷ es) ++ replicate z 0)
          ≡ encode e ++ take (n - 61) (encode_all es ++ replicate z 0) =
        ap (take n) (append_assoc (encode e) (encode_all es) (replicate z 0))
        ∙ (ap (λ m. take m (encode e ++ (encode_all es ++ replicate z 0))) (sym more)
            ∙ (ap (λ m. take (m + (n - 61)) (encode e ++ (encode_all es ++ replicate z 0)))
                  (sym len)
                ∙ take_behind (encode e) (encode_all es ++ replicate z 0) (n - 61))) in
      subst (λ m. Cut (e ∷ es) m (take n (encode_all (e ∷ es) ++ replicate z 0))) more
        (subst (λ bs. Cut (e ∷ es) (61 + (n - 61)) bs) (sym behind)
          (Cut-cons e es (n - 61) _ (take-Cut es (n - 61) z v.1)))
]
  where
    below : (m : ℕ) → ltb m 61 ≡ true → m < 61
    below m h = ground arith

    above : (m : ℕ) → ltb m 61 ≡ false → 61 + (m - 61) ≡ m
    above m h = ground arith

-- The log up to some of the current events.
abbrev pub shortened : Log → ℕ → Log
shortened log k = record log { current = take k log.current }

pub All-take : (es : List JournalEvent) (k : ℕ) → All IsEvent es → All IsEvent (take k es)
All-take es zero v = tt
All-take [] (suc k) v = tt
All-take (e ∷ es) (suc k) v = (v.0, All-take es k v.1)

-- A directory of a log whose open file is cut off anywhere in its records, or in zeros behind
-- them, is opened to a core that represents the log with the first of its current events; if any
-- event is missing, the cut was in or before the record of the first that is. The current events
-- are no more than a file takes, and their fields have their widths.
pub reopen-Torn :
    (flush_bytes : ℕ) (log : Log) (left : AofCore) (torn : Torn log left)
    → All IsEvent log.current
    → length log.current ≤ file_events
    → (k : ℕ) × Represents
        (shortened log k)
        (open_on flush_bytes (some left.sink.content) left.rolled)
      × ((torn.kept < 61 * suc k) ⊎ (take k log.current ≡ log.current))
reopen-Torn flush_bytes log left torn v fits =
    let c = take-Cut log.current torn.kept torn.zeros v in
    let opened =
      open_on-Represents flush_bytes (shortened log c.whole) c.tail (All-take log.current c.whole v)
        (omega (arith, fits, c.bound)) c.stops in
    (
      c.whole,
      subst (λ bs. Represents (shortened log c.whole) (open_on flush_bytes (some bs) left.rolled))
          (sym (torn.content_same ∙ c.bytes_same))
          (subst
            (λ fs.
              Represents (shortened log c.whole)
                (open_on flush_bytes (some (encode_all (take c.whole log.current) ++ c.tail)) fs))
            (sym torn.files_same) opened),
      c.missing,
    )
