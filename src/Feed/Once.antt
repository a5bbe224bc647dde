-- ===== src/Feed/Once.antt =====
-- A run of passes over one open file sends its events once each, in order.
use lunet_locks.Prelude.{
  ℕ, zero, suc, ◌*◌, ◌≤◌, ◌<◌, ◌≡◌, refl, sym, ap, ◌∙◌, false, some, List, [], ◌∷◌, ◌++◌, map, max,
  arith, length, take, drop, All,
}
use lunet_locks.Journal.Record.{JournalEvent, bytes_eq}
use lunet_locks.Journal.RoundTrip.{IsEvent, bytes_eq_refl}
use lunet_locks.Journal.FileParse.{encode_all}
use lunet_locks.Feed.Rescan.{
  MetaEntry, View, FeedMsg, event, Follower, fresh_follower, report_rolled, follow_open, rescan,
  rescan_all,
}
use lunet_locks.Feed.Follow.{
  events_sent, events_sent-append, events_sent-map, report_no_event, follow_open-whole,
}

-- What a pass finds of a file that is being written: some whole records, and the beginning of another.
pub record Sighting : Type 0 where
  pub whole : ℕ
  pub tail : List ℕ
  pub metas : List MetaEntry

abbrev pub view_of : List ℕ → List JournalEvent → Sighting → View
view_of name es s = record {
  open_file = some (name, some (encode_all (take s.whole es) ++ s.tail));
  metas = s.metas;
}

-- A sighting of a file of those events.
abbrev pub IsSighting : List JournalEvent → Sighting → Type 0
IsSighting es s = (length s.tail < 61) × (s.whole ≤ length es)

-- The most whole records that a pass found.
abbrev pub furthest : List Sighting → ℕ
furthest [] = 0
furthest (s ∷ ss) = max s.whole (furthest ss)

segments :
    (k l m : ℕ) (es : List JournalEvent)
    → k ≤ l
    → l ≤ m
    → drop k (take l es) ++ drop l (take m es) ≡ drop k (take m es)
segments zero zero m es h i = refl
segments zero (suc l) zero es h i = absurd (omega (arith, i))
segments zero (suc l) (suc m) [] h i = refl
segments zero (suc l) (suc m) (e ∷ es) h i =
    ap (◌∷◌ e) (segments zero l m es (omega arith) (omega (arith, i)))
segments (suc k) zero m es h i = absurd (omega (arith, h))
segments (suc k) (suc l) zero es h i = absurd (omega (arith, i))
segments (suc k) (suc l) (suc m) [] h i = refl
segments (suc k) (suc l) (suc m) (e ∷ es) h i =
    segments k l m es (omega (arith, h)) (omega (arith, i))

-- A pass over the file that is followed already.
rescan_same :
    (name : List ℕ) (es : List JournalEvent) (s : Sighting) (k : ℕ) (reported : List (List ℕ))
    → rescan
        (view_of name es s)
        (record { current_open = some name; current_offset = k; reported_rolled = reported })
      ≡ (
        (follow_open (some (encode_all (take s.whole es) ++ s.tail)) k).0,
        record {
          current_open = some name;
          current_offset = (follow_open (some (encode_all (take s.whole es) ++ s.tail)) k).1;
          reported_rolled = reported;
        },
      )
unfolding rescan
rescan_same name es s k reported = rw (bytes_eq_refl name)

abbrev pub following : List ℕ → ℕ → List (List ℕ) → Follower
following name offset reported = record {
  current_open = some name;
  current_offset = offset;
  reported_rolled = reported;
}

-- What a first pass and those behind it send.
sent-cons :
    (v : View) (vs : List View) (f f' : Follower) (ms : List FeedMsg)
    → rescan v f ≡ (ms, f')
    → events_sent (rescan_all (v ∷ vs) f).0 ≡ events_sent ms ++ events_sent (rescan_all vs f').0
unfolding rescan_all
sent-cons v vs f f' ms h =
    events_sent-append (rescan v f).0 (rescan_all vs (rescan v f).1).0
    ∙ ap (λ p. events_sent p.0 ++ events_sent (rescan_all vs p.1).0) h

follow_run :
    (name : List ℕ) (es : List JournalEvent) (ss : List Sighting) (k : ℕ) (reported : List (List ℕ))
    → All IsEvent es
    → All (IsSighting es) ss
    → events_sent
        (rescan_all (map (view_of name es) ss) (record {
          current_open = some name;
          current_offset = 61 * k;
          reported_rolled = reported;
        })).0
      ≡ drop k (take (max k (furthest ss)) es)
unfolding rescan_all
follow_run name es [] k reported v h =
    let m : max k 0 ≡ k = omega arith in rw m (sym (nothing k es))
  where
    nothing : (k : ℕ) (es : List JournalEvent) → drop k (take k es) ≡ []
    nothing zero es = refl
    nothing (suc k) [] = refl
    nothing (suc k) (e ∷ es) = nothing k es
follow_run name es (s ∷ ss) k reported v h =
    let bytes : List ℕ = encode_all (take s.whole es) ++ s.tail in
    let next : List FeedMsg × ℕ → List FeedMsg × Follower = λ p. (
      p.0,
      record { current_open = some name; current_offset = p.1; reported_rolled = reported },
    ) in
    let step =
      rescan_same name es s (61 * k) reported
      ∙ ap next (follow_open-whole es k s.whole s.tail v h.0.0 h.0.1) in
    let later = follow_run name es ss (max k s.whole) reported v h.1 in
    let m : max (max k s.whole) (furthest ss) ≡ max k (max s.whole (furthest ss)) = omega arith in
    sent-cons (view_of name es s) (map (view_of name es) ss) (following name (61 * k) reported)
      (following name (61 * max k s.whole) reported) _ step
    ∙ ((λ i. events_sent-map (drop k (take (max k s.whole) es)) i ++ later i)
        ∙ (ap (λ n. drop k (take (max k s.whole) es) ++ drop (max k s.whole) (take n es)) m
            ∙ segments k (max k s.whole) (max k (max s.whole (furthest ss))) es (omega arith)
                (omega arith)))

-- The first pass takes the file up from its beginning.
rescan_first :
    (name : List ℕ) (es : List JournalEvent) (s : Sighting)
    → rescan (view_of name es s) fresh_follower ≡ (
      (report_rolled name s.metas []).0
          ++ (follow_open (some (encode_all (take s.whole es) ++ s.tail)) 0).0,
      record {
        current_open = some name;
        current_offset = (follow_open (some (encode_all (take s.whole es) ++ s.tail)) 0).1;
        reported_rolled = (report_rolled name s.metas []).1;
      },
    )
unfolding rescan
rescan_first name es s = refl

-- Over any passes that find one open file at any stages of being written, torn in the last record
-- or not, the events sent are those of the most whole records that a pass found: each once, and
-- in order. The events have fields of their widths.
pub rescan_all-once :
    (name : List ℕ) (es : List JournalEvent) (ss : List Sighting)
    → All IsEvent es
    → All (IsSighting es) ss
    → events_sent (rescan_all (map (view_of name es) ss) fresh_follower).0 ≡ take (furthest ss) es
unfolding rescan_all
rescan_all-once name es [] v h = refl
rescan_all-once name es (s ∷ ss) v h =
    let announced = report_rolled name s.metas [] in
    let next : List FeedMsg × ℕ → List FeedMsg × Follower = λ p. (
      announced.0 ++ p.0,
      record { current_open = some name; current_offset = p.1; reported_rolled = announced.1 },
    ) in
    let z : max 0 s.whole ≡ s.whole = omega arith in
    let step =
      rescan_first name es s
      ∙ (ap next (follow_open-whole es 0 s.whole s.tail v h.0.0 h.0.1)
          ∙ ap (λ n. next (map event (take n es), 61 * n)) z) in
    let later = follow_run name es ss s.whole announced.1 v h.1 in
    let sent : events_sent (announced.0 ++ map event (take s.whole es)) ≡ take s.whole es =
      events_sent-append announced.0 (map event (take s.whole es))
      ∙ (λ j. report_no_event name s.metas [] j ++ events_sent-map (take s.whole es) j) in
    sent-cons (view_of name es s) (map (view_of name es) ss) fresh_follower
      (following name (61 * s.whole) announced.1) _ step
    ∙ ((λ i. sent i ++ later i)
        ∙ segments 0 s.whole (max s.whole (furthest ss)) es (omega arith) (omega arith))

-- On a pass that finds another open file than the one followed, the events sent are those of the
-- new file from its beginning, and none of the old file's, wherever in it the last pass had come
-- to.
pub rescan-new_file :
    (prev name : List ℕ) (es : List JournalEvent) (s : Sighting) (offset : ℕ)
    (reported : List (List ℕ))
    → All IsEvent es
    → IsSighting es s
    → bytes_eq prev name ≡ false
    → events_sent (rescan (view_of name es s) (following prev offset reported)).0 ≡ take s.whole es
unfolding rescan
rescan-new_file prev name es s offset reported v h other =
    let z : max 0 s.whole ≡ s.whole = omega arith in
    rw other (
      events_sent-append (report_rolled name s.metas reported).0 _
      ∙ ((λ i.
            report_no_event name s.metas reported i
            ++ events_sent (follow_open-whole es 0 s.whole s.tail v h.0 h.1 i).0)
          ∙ (events_sent-map (take (max 0 s.whole) es) ∙ ap (λ n. take n es) z)))
