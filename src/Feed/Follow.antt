-- ===== src/Feed/Follow.antt =====
-- Following an open file while it grows.
use lunet_locks.Prelude.{
  ℕ, zero, suc, ◌+◌, ◌-◌, ◌*◌, ◌≤◌, ◌<◌, ◌≡◌, refl, ap, ◌∙◌, inl, inr, true, false, Bool-cases,
  Option, none, some, List, [], ◌∷◌, ◌++◌, append_assoc, map, max, arith, ltb, leb, leb→le, length,
  take, drop, length-append, drop-append, length-drop, All,
}
use lunet_locks.Journal.Record.{record_size, JournalEvent, Meta, encode}
use lunet_locks.Journal.RoundTrip.{IsEvent, length-encode, parse_record-encode}
use lunet_locks.Journal.FileParse.{encode_all, length-encode_all}
use lunet_locks.Aof.Ring.{length-take_le}
use lunet_locks.Feed.Rescan.{
  MetaEntry, FeedMsg, event, rolled, read_new, report_entry, report_rolled, follow_open,
}

abbrev pub events_sent : List FeedMsg → List JournalEvent
events_sent [] = []
events_sent (event e ∷ ms) = e ∷ events_sent ms
events_sent (rolled name meta next ∷ ms) = events_sent ms

pub events_sent-append :
    (xs ys : List FeedMsg) → events_sent (xs ++ ys) ≡ events_sent xs ++ events_sent ys
events_sent-append [] ys = refl
events_sent-append (event e ∷ xs) ys = ap (◌∷◌ e) (events_sent-append xs ys)
events_sent-append (rolled name meta next ∷ xs) ys = events_sent-append xs ys

pub events_sent-map : (es : List JournalEvent) → events_sent (map event es) ≡ es
events_sent-map [] = refl
events_sent-map (e ∷ es) = ap (◌∷◌ e) (events_sent-map es)

entry_no_event :
    (next : List ℕ) (m : MetaEntry) (reported : List (List ℕ)) (d : Option Meta)
    → events_sent (report_entry next m reported d).0 ≡ []
entry_no_event next m reported none = refl
entry_no_event next m reported (some meta) = ground arith

pub report_no_event :
    (next : List ℕ) (ms : List MetaEntry) (reported : List (List ℕ))
    → events_sent (report_rolled next ms reported).0 ≡ []
unfolding report_rolled
report_no_event next [] reported = refl
report_no_event next (m ∷ ms) reported =
    events_sent-append (report_entry next m reported m.decoded).0 _
    ∙ (ap
          (λ xs.
            xs ++ events_sent (report_rolled next ms (report_entry next m reported m.decoded).1).0)
          (entry_no_event next m reported m.decoded)
        ∙ report_no_event next ms (report_entry next m reported m.decoded).1)

read_new-encode :
    (fuel : ℕ) (e : JournalEvent) (rest : List ℕ)
    → IsEvent e
    → read_new (suc fuel) (encode e ++ rest)
      ≡ (e ∷ (read_new fuel rest).0, 61 + (read_new fuel rest).1)
unfolding read_new
read_new-encode fuel e rest v =
    let len = length-encode e v.holder_width in
    let long : ltb (length (encode e ++ rest)) record_size ≡ false =
      not_short _ (omega (arith, length-append (encode e) rest, len)) in
    rw (long, parse_record-encode e rest v, drop-append 61 (encode e) rest len)
  where
    not_short : (n : ℕ) → 61 ≤ n → ltb n record_size ≡ false
    not_short n h = ground arith

read_new-short : (fuel : ℕ) (tail : List ℕ) → length tail < 61 → read_new fuel tail ≡ ([], 0)
unfolding read_new
read_new-short zero tail h = refl
read_new-short (suc fuel) tail h =
    let short : ltb (length tail) record_size ≡ true = ground arith in rw short

read_new-encode_all :
    (es : List JournalEvent) (fuel : ℕ) (tail : List ℕ)
    → All IsEvent es
    → length tail < 61
    → length es ≤ fuel
    → read_new fuel (encode_all es ++ tail) ≡ (es, 61 * length es)
read_new-encode_all [] fuel tail v t f = read_new-short fuel tail t
read_new-encode_all (e ∷ es) zero tail v t f = absurd (omega (arith, f))
read_new-encode_all (e ∷ es) (suc fuel) tail v t f =
    ap (read_new (suc fuel)) (append_assoc (encode e) (encode_all es) tail)
    ∙ (read_new-encode fuel e (encode_all es ++ tail) v.0
        ∙ (ap (λ p. (e ∷ p.0, 61 + p.1)) (read_new-encode_all es fuel tail v.1 t (omega (arith, f)))
            ∙ ap (λ n. (e ∷ es, n)) (further (length es))))
  where
    further : (n : ℕ) → 61 + 61 * n ≡ 61 * suc n
    further n = omega arith

drop-encode_all :
    (k : ℕ) (es : List JournalEvent) (tail : List ℕ)
    → All IsEvent es
    → k ≤ length es
    → drop (61 * k) (encode_all es ++ tail) ≡ encode_all (drop k es) ++ tail
drop-encode_all zero es tail v h = refl
drop-encode_all (suc k) [] tail v h = absurd (omega (arith, h))
drop-encode_all (suc k) (e ∷ es) tail v h =
    let n : 61 * suc k ≡ length (encode e) + 61 * k =
      omega (arith, length-encode e v.0.holder_width) in
    ap (λ xs. drop (61 * suc k) xs) (append_assoc (encode e) (encode_all es) tail)
    ∙ (ap (λ m. drop m (encode e ++ (encode_all es ++ tail))) n
        ∙ (drop_behind (encode e) (encode_all es ++ tail) (61 * k)
            ∙ drop-encode_all k es tail v.1 (omega (arith, h))))
  where
    drop_behind : (xs ys : List ℕ) (n : ℕ) → drop (length xs + n) (xs ++ ys) ≡ drop n ys
    drop_behind [] ys n = ap (λ m. drop m ys) zero_add
      where
        zero_add : 0 + n ≡ n
        zero_add = omega arith
    drop_behind (x ∷ xs) ys n =
        let m : length (x ∷ xs) + n ≡ suc (length xs + n) = omega arith in
        rw m (drop_behind xs ys n)

drop-take_none : (k : ℕ) (es : List JournalEvent) → drop k (take k es) ≡ []
drop-take_none zero es = refl
drop-take_none (suc k) [] = refl
drop-take_none (suc k) (e ∷ es) = drop-take_none k es

All-take : (es : List JournalEvent) (k : ℕ) → All IsEvent es → All IsEvent (take k es)
All-take es zero v = tt
All-take [] (suc k) v = tt
All-take (e ∷ es) (suc k) v = (v.0, All-take es k v.1)

All-drop : (es : List JournalEvent) (k : ℕ) → All IsEvent es → All IsEvent (drop k es)
All-drop es zero v = v
All-drop [] (suc k) v = tt
All-drop (e ∷ es) (suc k) v = All-drop es k v.1

-- With `k` events sent, a pass over a file of `w` whole records sends those behind the `k`.
pub follow_open-whole :
    (es : List JournalEvent) (k w : ℕ) (tail : List ℕ)
    → All IsEvent es
    → length tail < 61
    → w ≤ length es
    → follow_open (some (encode_all (take w es) ++ tail)) (61 * k)
      ≡ (map event (drop k (take (max k w) es)), 61 * max k w)
follow_open-whole es k w tail v t bound =
    let ds : List JournalEvent = take w es in
    let count = length-take_le w es bound in
    let len : length (encode_all ds ++ tail) ≡ 61 * w + length tail =
      omega (
        arith,
        length-append (encode_all ds) tail,
        length-encode_all ds (All-take es w v),
        count,
      ) in
    elim (Bool-cases (leb (length (encode_all ds ++ tail)) (61 * k))) [
      | inl e ↦ let m : max k w ≡ k = behind_all _ e len in rw (e, m, drop-take_none k es)
      | inr e ↦
          let m : max k w ≡ w = ahead _ e len in
          let some_left : k ≤ w = reached _ e len in
          let left : length (drop k ds) ≡ w - k = omega (arith, length-drop k ds, count) in
          let whole : 61 * k + 61 * length (drop k ds) ≡ 61 * w = omega (arith, left, some_left) in
          rw (
            e,
            m,
            drop-encode_all k ds tail (All-take es w v) (omega (arith, count, some_left)),
            read_new-encode_all (drop k ds) (length (encode_all ds ++ tail)) tail
                (All-drop ds k (All-take es w v)) t (omega (arith, left, len)),
            whole,
          )
    ]
  where
    behind_all : (n : ℕ) → leb n (61 * k) ≡ true → n ≡ 61 * w + length tail → max k w ≡ k
    behind_all n e h = let le = leb→le n (61 * k) e in omega (arith, le, h)

    reached : (n : ℕ) → leb n (61 * k) ≡ false → n ≡ 61 * w + length tail → k ≤ w
    reached n e h = let gt : 61 * k < n = ground arith in omega (arith, gt, h, t)

    ahead : (n : ℕ) → leb n (61 * k) ≡ false → n ≡ 61 * w + length tail → max k w ≡ w
    ahead n e h = let r = reached n e h in omega (arith, r)
