-- ===== src/Feed/Rolled.antt =====
-- A rolled file is reported to the clients once.
use lunet_locks.Prelude.{
  ℕ, ◌+◌, ◌≤◌, ◌≡◌, refl, sym, ap, subst, inl, inr, Bool, true, false, ◌||◌, Bool-cases, Option,
  none, some, List, [], ◌∷◌, ◌++◌, map, arith, leb, if◌then◌else◌, length, drop, any,
}
use lunet_locks.Journal.Record.{JournalEvent, Meta, bytes_eq}
use lunet_locks.Oracle.Chains.{bytes_eq_same}
use lunet_locks.Feed.Rescan.{
  MetaEntry, View, FeedMsg, event, rolled, Follower, fresh_follower, read_new, report_entry,
  report_rolled, follow_open, is_roll, rescan, rescan_all,
}

abbrev pub rolled_names : List FeedMsg → List (List ℕ)
rolled_names [] = []
rolled_names (event e ∷ ms) = rolled_names ms
rolled_names (rolled name meta next ∷ ms) = name ∷ rolled_names ms

-- How often a name is in a list.
abbrev pub times : List ℕ → List (List ℕ) → ℕ
times x [] = 0
times x (y ∷ ys) = if bytes_eq x y then 1 + times x ys else times x ys

times-append : (x : List ℕ) (xs ys : List (List ℕ)) → times x (xs ++ ys) ≡ times x xs + times x ys
times-append x [] ys = zero_add
  where
    zero_add : times x ys ≡ 0 + times x ys
    zero_add = omega arith
times-append x (y ∷ xs) ys = by_test (bytes_eq x y) (times-append x xs ys)
  where
    by_test :
        (b : Bool)
        → times x (xs ++ ys) ≡ times x xs + times x ys
        → (if b then 1 + times x (xs ++ ys) else times x (xs ++ ys))
          ≡ (if b then 1 + times x xs else times x xs) + times x ys
    by_test true h = omega (arith, h)
    by_test false h = h

absent : (x : List ℕ) (ys : List (List ℕ)) → any (bytes_eq x) ys ≡ false → times x ys ≡ 0
absent x [] h = refl
absent x (y ∷ ys) h = by_test (bytes_eq x y) h (λ k. absent x ys k)
  where
    by_test :
        (b : Bool)
        → (b || any (bytes_eq x) ys) ≡ false
        → (any (bytes_eq x) ys ≡ false → times x ys ≡ 0)
        → (if b then 1 + times x ys else times x ys) ≡ 0
    by_test true h k = cc
    by_test false h k = k h

rolled_names-append :
    (xs ys : List FeedMsg) → rolled_names (xs ++ ys) ≡ rolled_names xs ++ rolled_names ys
rolled_names-append [] ys = refl
rolled_names-append (event e ∷ xs) ys = rolled_names-append xs ys
rolled_names-append (rolled name meta next ∷ xs) ys = ap (◌∷◌ name) (rolled_names-append xs ys)

rolled_names-map : (es : List JournalEvent) → rolled_names (map event es) ≡ []
rolled_names-map [] = refl
rolled_names-map (e ∷ es) = rolled_names-map es

-- Sending the messages took the names from the one list to the other, which has the name at most once.
record Reports (x : List ℕ) (before : List (List ℕ)) (ms : List FeedMsg) (after : List (List ℕ))
    : Type 0 where
  counted : times x after ≡ times x before + times x (rolled_names ms)
  at_most_once : times x after ≤ 1

Reports-none : (x : List ℕ) (names : List (List ℕ)) → times x names ≤ 1 → Reports x names [] names
Reports-none x names h = record { counted = omega arith; at_most_once = h }

Reports-append :
    (x : List ℕ) (a b c : List (List ℕ)) (ms ns : List FeedMsg)
    → Reports x a ms b
    → Reports x b ns c
    → Reports x a (ms ++ ns) c
Reports-append x a b c ms ns h k = record {
  counted = omega (
    arith,
    h.counted,
    k.counted,
    ap (times x) (rolled_names-append ms ns),
    times-append x (rolled_names ms) (rolled_names ns),
  );
  at_most_once = k.at_most_once;
}

report_one :
    (x name next : List ℕ) (meta : Meta) (names : List (List ℕ))
    → any (bytes_eq name) names ≡ false
    → times x names ≤ 1
    → Reports x names (rolled name meta next ∷ []) (name ∷ names)
report_one x name next meta names fresh h = elim (Bool-cases (bytes_eq x name)) [
  | inl e ↦
      let gone : times x names ≡ 0 =
        absent x names
          (subst (λ y. any (bytes_eq y) names ≡ false) (sym (bytes_eq_same x name e)) fresh) in
      record { counted = counted_as e; at_most_once = once_as e gone }
  | inr e ↦ record { counted = counted_not e; at_most_once = rw e h }
]
  where
    counted_as :
        bytes_eq x name ≡ true → times x (name ∷ names) ≡ times x names + times x (name ∷ [])
    counted_as e = rw e (omega arith)

    counted_not :
        bytes_eq x name ≡ false → times x (name ∷ names) ≡ times x names + times x (name ∷ [])
    counted_not e = rw e (omega arith)

    once_as : bytes_eq x name ≡ true → times x names ≡ 0 → times x (name ∷ names) ≤ 1
    once_as e g = rw e (omega (arith, g))

report_entry-Reports :
    (x next : List ℕ) (m : MetaEntry) (names : List (List ℕ)) (d : Option Meta)
    → times x names ≤ 1
    → Reports x names (report_entry next m names d).0 (report_entry next m names d).1
report_entry-Reports x next m names none h = Reports-none x names h
report_entry-Reports x next m names (some meta) h =
    elim (Bool-cases (any (bytes_eq m.name) names)) [
      | inl e ↦ rw e (Reports-none x names h)
      | inr e ↦ elim (Bool-cases m.has_bin) [
        | inl b ↦ rw (e, b) (report_one x m.name next meta names e h)
        | inr b ↦ rw (e, b) (Reports-none x names h)
      ]
    ]

report_rolled-Reports :
    (x next : List ℕ) (ms : List MetaEntry) (names : List (List ℕ))
    → times x names ≤ 1
    → Reports x names (report_rolled next ms names).0 (report_rolled next ms names).1
unfolding report_rolled
report_rolled-Reports x next [] names h = Reports-none x names h
report_rolled-Reports x next (m ∷ ms) names h =
    let first = report_entry-Reports x next m names m.decoded h in
    Reports-append x names (report_entry next m names m.decoded).1 _
      (report_entry next m names m.decoded).0 _ first
      (report_rolled-Reports x next ms (report_entry next m names m.decoded).1 first.at_most_once)

follow_open-Reports :
    (x : List ℕ) (bytes : Option (List ℕ)) (offset : ℕ) (names : List (List ℕ))
    → times x names ≤ 1
    → Reports x names (follow_open bytes offset).0 names
follow_open-Reports x none offset names h = Reports-none x names h
follow_open-Reports x (some bytes) offset names h = elim (Bool-cases (leb (length bytes) offset)) [
  | inl e ↦ rw e (Reports-none x names h)
  | inr e ↦ rw e (record {
    counted =
        omega
          (arith, ap (times x) (rolled_names-map (read_new (length bytes) (drop offset bytes)).0));
    at_most_once = h;
  })
]

rescan-Reports :
    (x : List ℕ) (view : View) (f : Follower)
    → times x f.reported_rolled ≤ 1
    → Reports x f.reported_rolled (rescan view f).0 (rescan view f).1.reported_rolled
unfolding rescan
rescan-Reports x view f h = by_open view.open_file
  where
    by_open :
        (o : Option (List ℕ × Option (List ℕ)))
        → Reports x f.reported_rolled
            (rescan (record view { open_file = o }) f).0
            (rescan (record view { open_file = o }) f).1.reported_rolled
    by_open none = unfold rescan in Reports-none x f.reported_rolled h
    by_open (some (name, bytes)) =
        unfold rescan in
        elim (Bool-cases (is_roll f.current_open name)) [
          | inl e ↦
              let r = report_rolled-Reports x name view.metas f.reported_rolled h in
              rw e (
                Reports-append x f.reported_rolled _ _ _ _ r
                  (follow_open-Reports x bytes 0 _ r.at_most_once))
          | inr e ↦ rw e (follow_open-Reports x bytes f.current_offset f.reported_rolled h)
        ]

rescan_all-Reports :
    (x : List ℕ) (views : List View) (f : Follower)
    → times x f.reported_rolled ≤ 1
    → Reports x f.reported_rolled (rescan_all views f).0 (rescan_all views f).1.reported_rolled
unfolding rescan_all
rescan_all-Reports x [] f h = Reports-none x f.reported_rolled h
rescan_all-Reports x (v ∷ vs) f h =
    let first = rescan-Reports x v f h in
    Reports-append x f.reported_rolled (rescan v f).1.reported_rolled _ (rescan v f).0 _ first
      (rescan_all-Reports x vs (rescan v f).1 first.at_most_once)

-- Whatever the passes find, no rolled file is reported a second time.
pub rescan_all-rolled_once :
    (views : List View) (name : List ℕ)
    → times name (rolled_names (rescan_all views fresh_follower).0) ≤ 1
rescan_all-rolled_once views name =
    let r = rescan_all-Reports name views fresh_follower (omega arith) in
    omega (arith, r.counted, r.at_most_once)
