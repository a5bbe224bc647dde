-- ===== src/Wal/Retry.antt =====
-- What a tick leaves for the next one.
use lunet_locks.Prelude.{
  ℕ, ◌≡◌, ◌⊎◌, refl, sym, ap, ◌∙◌, inl, inr, Bool, true, false, Bool-cases, none, some, List, [],
  ◌∷◌, arith, ltb, ◌==◌, ==_iff, if◌then◌else◌, length,
}
use lunet_locks.Prelude.Results.{ok, err}
use lunet_locks.Locks.Types.{Lease}
use lunet_locks.Wal.Records.{Codec, frame_encode}
use lunet_locks.Wal.Submit.{
  DurableEntry, get, insert, WalSnapshotStore, Code, code_ok, code_eagain, code_eio, code_einval,
  code_enospc, code_other, kept_change, Built, build, Submitted, submit_frames, submit_records,
  submit_built, submit,
}

-- A tick that succeeds hands the engine all that it built and leaves nothing noted; one that fails
-- leaves the same locks noted.
unfoldable pub Settles : WalSnapshotStore → Built → Submitted → Type 0
Settles s b x =
    (((n : ℕ) × (x.result ≡ ok n))
      × (x.store.changed ≡ [])
      × (x.took_records ≡ b.records)
      × (x.took_frames ≡ b.frames))
    ⊎ (((rc : Code) × (x.result ≡ err rc)) × (x.store.changed ≡ s.changed))

frames-Settles :
    (rc : Code) (s s' : WalSnapshotStore) (b : Built)
    → s'.changed ≡ s.changed
    → Settles s b (submit_frames rc s' b.records b.frames)
unfolding Settles
frames-Settles code_ok s s' b h = inl ((_, refl), refl, refl, refl)
frames-Settles code_eagain s s' b h = inr ((_, refl), h)
frames-Settles code_eio s s' b h = inr ((_, refl), h)
frames-Settles code_einval s s' b h = inr ((_, refl), h)
frames-Settles code_enospc s s' b h = inr ((_, refl), h)
frames-Settles code_other s s' b h = inr ((_, refl), h)

records-Settles :
    (rc rc' : Code) (s s' : WalSnapshotStore) (b : Built)
    → s'.changed ≡ s.changed
    → Settles s b (submit_records rc rc' s' b.records b.frames)
unfolding Settles
records-Settles code_ok rc' s s' b h =
    frames-Settles (if length b.frames == 0 then code_ok else rc') s s' b h
records-Settles code_eagain rc' s s' b h = inr ((_, refl), h)
records-Settles code_eio rc' s s' b h = inr ((_, refl), h)
records-Settles code_einval rc' s s' b h = inr ((_, refl), h)
records-Settles code_enospc rc' s s' b h = inr ((_, refl), h)
records-Settles code_other rc' s s' b h = inr ((_, refl), h)

either-Settles :
    (c : Bool) (s : WalSnapshotStore) (b : Built) (x y : Submitted)
    → Settles s b x
    → Settles s b y
    → Settles s b (if c then x else y)
either-Settles true s b x y h k = h
either-Settles false s b x y h k = k

built-Settles :
    (rc rc' : Code) (s : WalSnapshotStore) (b : Built) → Settles s b (submit_built rc rc' s b)
built-Settles rc rc' s b =
    either-Settles b.refused s b _ _ (unfold Settles in inr ((_, refl), refl)) (
      records-Settles (if length b.records == 0 then code_ok else rc) rc' s
        (record s { durable = b.durable }) b refl)

abbrev pub nothing_built : WalSnapshotStore → Built
nothing_built s = record { durable = s.durable; records = []; frames = []; refused = false }

-- A tick succeeds with no lock left noted and with all that it built for the noted locks taken by the
-- engine, or it fails, whatever the reason, with the same locks noted.
pub submit-Settles :
    (codec : Codec) (stamp : ℕ) (locks : List (ℕ × Lease)) (rc rc' : Code) (s : WalSnapshotStore)
    → Settles s
        (build codec stamp locks s.changed (nothing_built s))
        (submit codec stamp locks rc rc' s)
unfolding submit
submit-Settles codec stamp locks rc rc' s = elim (Bool-cases (length s.changed == 0)) [
  | inl e ↦ let empty : s.changed ≡ [] = length_zero s.changed e in rw e (nothing_noted empty)
  | inr e ↦ rw e (
      either-Settles s.is_dead s (build codec stamp locks s.changed (nothing_built s)) _ _
        (unfold Settles in inr ((_, refl), refl))
        (built-Settles rc rc' s (build codec stamp locks s.changed (nothing_built s))))
]
  where
    length_zero : (xs : List ℕ) → (length xs == 0) ≡ true → xs ≡ []
    length_zero [] h = refl
    length_zero (x ∷ xs) h = absurd (omega (arith, (==_iff (length (x ∷ xs)) 0).0 h))

    nothing_noted :
        s.changed ≡ []
        → Settles s
            (build codec stamp locks s.changed (nothing_built s))
            (record { store = s; took_records = []; took_frames = []; result = ok 0 })
    nothing_noted h =
        let none_built : build codec stamp locks s.changed (nothing_built s) ≡ nothing_built s =
          ap (λ ids. build codec stamp locks ids (nothing_built s)) h ∙ (unfold build in refl) in
        unfold Settles in
        inl
          ((0, refl), h, ap (λ b. b.records) (sym none_built), ap (λ b. b.frames) (sym none_built))

pub insert-later {ℓ} :
    {A : Type ℓ} (id k : ℕ) (a b : A) (rest : List (ℕ × A))
    → ltb id k ≡ false
    → (k == id) ≡ false
    → insert id a ((k, b) ∷ rest) ≡ (k, b) ∷ insert id a rest
unfolding insert
insert-later id k a b rest e f = by_tests (ltb id k) (k == id) e f
  where
    by_tests :
        (c d : Bool)
        → c ≡ false
        → d ≡ false
        → (if c
            then (id, a) ∷ ((k, b) ∷ rest)
            else if d
            then (id, a) ∷ rest
            else (k, b) ∷ insert id a rest)
          ≡ (k, b) ∷ insert id a rest
    by_tests true d e f = cc
    by_tests false true e f = cc
    by_tests false false e f = refl

get-later {ℓ} :
    {A : Type ℓ} (id k : ℕ) (b : A) (rest : List (ℕ × A))
    → (k == id) ≡ false
    → get id ((k, b) ∷ rest) ≡ get id rest
unfolding get
get-later id k b rest f = rw f

get-head {ℓ} :
    {A : Type ℓ} (id : ℕ) (a : A) (rest : List (ℕ × A)) → get id ((id, a) ∷ rest) ≡ some a
unfolding get
get-head id a rest = let same : (id == id) ≡ true = (==_iff id id).1 refl in rw same

get-insert {ℓ} :
    {A : Type ℓ} (id : ℕ) (a : A) (es : List (ℕ × A)) → get id (insert id a es) ≡ some a
get-insert id a [] = unfold insert in get-head id a []
get-insert id a ((k, b) ∷ rest) = elim (Bool-cases (ltb id k)) [
  | inl e ↦ ap (get id) (before e) ∙ get-head id a ((k, b) ∷ rest)
  | inr e ↦ elim (Bool-cases (k == id)) [
    | inl f ↦ ap (get id) (replaced e f) ∙ get-head id a rest
    | inr f ↦
        ap (get id) (insert-later id k a b rest e f)
        ∙ (get-later id k b (insert id a rest) f ∙ get-insert id a rest)
  ]
]
  where
    before : ltb id k ≡ true → insert id a ((k, b) ∷ rest) ≡ (id, a) ∷ ((k, b) ∷ rest)
    before e = unfold insert in rw e

    replaced : ltb id k ≡ false → (k == id) ≡ true → insert id a ((k, b) ∷ rest) ≡ (id, a) ∷ rest
    replaced e f = unfold insert in rw (e, f)

refused_once :
    (codec : Codec) (stamp : ℕ) (locks : List (ℕ × Lease)) (id : ℕ)
    (durable : List (ℕ × DurableEntry)) (entry : DurableEntry) (frame : List ℕ)
    → get id locks ≡ none
    → get id durable ≡ some entry
    → entry.kept ≡ false
    → frame_encode codec stamp (kept_change id entry) ≡ some frame
    → (length frame == 0) ≡ false
    → submit codec stamp locks code_ok code_eagain
        (record { changed = id ∷ []; durable = durable; is_dead = false })
      ≡ record {
        store = record {
          changed = id ∷ [];
          durable = insert id (record entry { kept = true }) durable;
          is_dead = false;
        };
        took_records = [];
        took_frames = [];
        result = err code_eagain;
      }
unfolding submit build
refused_once codec stamp locks id durable entry frame gone known released encoded whole =
    rw (gone, known, released, encoded, whole)

skipped :
    (codec : Codec) (stamp : ℕ) (locks : List (ℕ × Lease)) (rc rc' : Code) (id : ℕ)
    (durable : List (ℕ × DurableEntry)) (entry : DurableEntry)
    → get id locks ≡ none
    → get id durable ≡ some (record entry { kept = true })
    → submit codec stamp locks rc rc'
        (record { changed = id ∷ []; durable = durable; is_dead = false })
      ≡ record {
        store = record { changed = []; durable = durable; is_dead = false };
        took_records = [];
        took_frames = [];
        result = ok 0;
      }
unfolding submit build
skipped codec stamp locks rc rc' id durable entry gone known = rw (gone, known)

-- A durable lock was released and is the one that is noted; its kept frame is built, and the
-- engine refuses the generation since a batch is outstanding. The next tick then reports success,
-- whatever the engine would answer, without handing it the frame, and no lock is noted any more.
pub submit-kept_frame_lost :
    (codec : Codec) (stamp stamp' : ℕ) (locks : List (ℕ × Lease)) (rc rc' : Code) (id : ℕ)
    (durable : List (ℕ × DurableEntry)) (entry : DurableEntry) (frame : List ℕ)
    → get id locks ≡ none
    → get id durable ≡ some entry
    → entry.kept ≡ false
    → frame_encode codec stamp (kept_change id entry) ≡ some frame
    → (length frame == 0) ≡ false
    → let first =
        submit codec stamp locks code_ok code_eagain
          (record { changed = id ∷ []; durable = durable; is_dead = false }) in
      let second = submit codec stamp' locks rc rc' first.store in
      (first.result ≡ err code_eagain)
      × (second.result ≡ ok 0)
      × (second.took_frames ≡ [])
      × (second.store.changed ≡ [])
submit-kept_frame_lost codec stamp stamp' locks rc rc' id durable entry frame gone known released
      encoded whole =
    let one =
      refused_once codec stamp locks id durable entry frame gone known released encoded whole in
    let two =
      ap (λ x. submit codec stamp' locks rc rc' x.store) one
      ∙ skipped codec stamp' locks rc rc' id (insert id (record entry { kept = true }) durable)
          entry gone (get-insert id (record entry { kept = true }) durable) in
    (
      ap (λ x. x.result) one,
      ap (λ x. x.result) two,
      ap (λ x. x.took_frames) two,
      ap (λ x. x.store.changed) two,
    )
