-- ===== src/State/Store.antt =====
-- The file store: the staged write with what the disk answers, the load, and the guard of the lazy load.
use lunet_locks.Prelude.{
  ℕ, ◌≡◌, ◌⊎◌, refl, inl, inr, Bool, true, false, not, Option, none, some, List, if◌then◌else◌,
}
use lunet_locks.Prelude.Results.{Result, ok, err, Result-cases}
use lunet_locks.State.Frame.{FrameError, frame, unframe}
use lunet_locks.State.RoundTrip.{unframe-frame}

-- The file's bytes, and the temporary file's beside it.
pub record Directory : Type 0 where
  pub file : Option (List ℕ)
  pub temporary : Option (List ℕ)

-- Whether each call of the staged write succeeds; a failed write leaves some bytes in the temporary file.
pub record Answers : Type 0 where
  pub created : Bool
  pub write_left : Option (List ℕ)
  pub synced : Bool
  pub renamed : Bool
  pub parent_synced : Bool
  pub removed : Bool

pub data StoreError : Type 0 where
  framing : FrameError → StoreError
  create_failed write_failed sync_failed rename_failed parent_sync_failed read_failed : StoreError

-- The closure of `write_atomically`.
unfoldable pub staged : Answers → List ℕ → Directory → Directory × Result StoreError (Unit {0})
staged a bytes d = if not a.created then (d, err create_failed) else elim a.write_left [
  | some left ↦ (record d { temporary = some left }, err write_failed)
  | none ↦
      if not a.synced
      then (record d { temporary = some bytes }, err sync_failed)
      else if not a.renamed
      then (record d { temporary = some bytes }, err rename_failed)
      else if not a.parent_synced
      then (record { file = some bytes; temporary = none }, err parent_sync_failed)
      else (record { file = some bytes; temporary = none }, ok tt)
]

abbrev clean_up :
    Answers → Directory × Result StoreError (Unit {0}) → Directory × Result StoreError (Unit {0})
clean_up a (d, ok x) = (d, ok x)
clean_up a (d, err e) = (if a.removed then record d { temporary = none } else d, err e)

unfoldable pub write_atomically :
    Answers → List ℕ → Directory → Directory × Result StoreError (Unit {0})
unfolding staged
write_atomically a bytes d = clean_up a (staged a bytes d)

abbrev pub flush_framed :
    Answers → Result FrameError (List ℕ) → Directory → Directory × Result StoreError (Unit {0})
flush_framed a (ok bytes) d = write_atomically a bytes d
flush_framed a (err e) d = (d, err (framing e))

unfoldable pub flush {ℓ} :
    {S : Type ℓ}
    → (S → Option (List ℕ))
    → Answers
    → S
    → Directory
    → Directory × Result StoreError (Unit {0})
flush to_json a snap d = flush_framed a (frame to_json snap) d

-- `load`, where the read of an existing file may fail.
unfoldable pub load {ℓ} :
    {S : Type ℓ} → (List ℕ → Option S) → Bool → Directory → Result StoreError (Option S)
load from_json readable d = elim d.file [
  | none ↦ ok none
  | some bytes ↦ if readable then ok (unframe from_json bytes) else err read_failed
]

unfoldable pub lazy_load {ℓ} :
    {S : Type ℓ}
    → (List ℕ → Option S)
    → Bool
    → Bool
    → Bool
    → Directory
    → Result StoreError (Option S)
unfolding load
lazy_load from_json clean_boot table_empty readable d =
    if not clean_boot
    then ok none
    else if not table_empty
    then ok none
    else load from_json readable d

-- The file is as it was and an error is reported, or it has all the bytes.
unfoldable pub Replaced : List ℕ → Directory → Directory × Result StoreError (Unit {0}) → Type 0
Replaced bytes d (d', r) =
    ((d'.file ≡ d.file) × ((e : StoreError) × (r ≡ err e))) ⊎ (d'.file ≡ some bytes)

staged-Replaced :
    (a : Answers) (bytes : List ℕ) (d : Directory) → Replaced bytes d (staged a bytes d)
unfolding staged Replaced
staged-Replaced a bytes d = by_answers a.created a.write_left a.synced a.renamed a.parent_synced
  where
    by_answers :
        (c : Bool) (w : Option (List ℕ)) (s r p : Bool)
        → Replaced bytes d (
            staged
              (record a { created = c; write_left = w; synced = s; renamed = r; parent_synced = p })
              bytes
              d)
    by_answers false w s r p = inl (refl, (create_failed, refl))
    by_answers true (some left) s r p = inl (refl, (write_failed, refl))
    by_answers true none false r p = inl (refl, (sync_failed, refl))
    by_answers true none true false p = inl (refl, (rename_failed, refl))
    by_answers true none true true false = inr refl
    by_answers true none true true true = inr refl

clean_up-Replaced :
    (a : Answers) (bytes : List ℕ) (d : Directory) (x : Directory × Result StoreError (Unit {0}))
    → Replaced bytes d x
    → Replaced bytes d (clean_up a x)
unfolding Replaced
clean_up-Replaced a bytes d (d', ok x) h = h
clean_up-Replaced a bytes d (d', err e) h = by_answer a.removed
  where
    by_answer :
        (b : Bool) → Replaced bytes d (if b then record d' { temporary = none } else d', err e)
    by_answer true = h
    by_answer false = h

-- Whichever call fails, the staged write leaves the file as it was, with an error, or leaves all the
-- bytes in it; so it reports success only with the bytes in place.
pub write_atomically-Replaced :
    (a : Answers) (bytes : List ℕ) (d : Directory) → Replaced bytes d (write_atomically a bytes d)
unfolding write_atomically
write_atomically-Replaced a bytes d =
    clean_up-Replaced a bytes d (staged a bytes d) (staged-Replaced a bytes d)

-- Whichever call of it fails, a flush either reports an error, and a lazy load after a clean stop
-- into an empty table gives what it gave before, or that load gives the snapshot that was
-- flushed; so after a flush that reports success it gives the snapshot. It is assumed that
-- serde_json reads back what it wrote, and that the file can be read.
pub lazy_load-flush {ℓ} :
    {S : Type ℓ} (to_json : S → Option (List ℕ)) (from_json : List ℕ → Option S)
    → (reads_back : (s : S) (payload : List ℕ)
        → to_json s ≡ some payload
        → from_json payload ≡ some s)
    → (a : Answers) (snap : S) (d : Directory)
    → ((lazy_load from_json true true true (flush to_json a snap d).0
          ≡ lazy_load from_json true true true d)
        × ((e : StoreError) × ((flush to_json a snap d).1 ≡ err e)))
      ⊎ (lazy_load from_json true true true (flush to_json a snap d).0 ≡ ok (some snap))
unfolding flush
lazy_load-flush to_json from_json reads_back a snap d = elim (Result-cases (frame to_json snap)) [
  | inl (bytes, e) ↦ rw e (
      of_replaced (write_atomically a bytes d) bytes (write_atomically-Replaced a bytes d)
        (unframe-frame to_json from_json reads_back snap bytes e))
  | inr (x, e) ↦ rw e (inl (refl, (framing x, refl)))
]
  where
    of_replaced :
        (x : Directory × Result StoreError (Unit {0})) (bytes : List ℕ)
        → Replaced bytes d x
        → unframe from_json bytes ≡ some snap
        → ((lazy_load from_json true true true x.0 ≡ lazy_load from_json true true true d)
            × ((e : StoreError) × (x.1 ≡ err e)))
          ⊎ (lazy_load from_json true true true x.0 ≡ ok (some snap))
    of_replaced (d', r) bytes h u =
        let cases : ((d'.file ≡ d.file) × ((e : StoreError) × (r ≡ err e)))
            ⊎ (d'.file ≡ some bytes) =
          unfold Replaced in h in
        elim cases [
          | inl (same, e) ↦ inl (unfold lazy_load load in rw same, e)
          | inr same ↦ inr (unfold lazy_load load in rw (same, u))
        ]
