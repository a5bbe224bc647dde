-- ===== src/Wal/Tests.antt =====
-- The log with a concrete codec, and the theorems at such inputs.
use lunet_locks.Prelude.{
  ℕ, ◌≡◌, refl, false, Option, none, some, List, [], ◌∷◌, ◌++◌, ◌==◌, if◌then◌else◌, length, take,
  replicate,
}
use lunet_locks.Prelude.Results.{ok, err}
use lunet_locks.Locks.Types.{Lease}
use lunet_locks.Wal.Records.{WalRecord, Codec, no_holder, frame_encode}
use lunet_locks.Wal.Labels.{labels, labels_to_tag_bytes, labels-labels_to_tag_bytes}
use lunet_locks.Wal.Submit.{
  DurableEntry, get, WalSnapshotStore, code_ok, code_eagain, kept_change, build, submit,
}
use lunet_locks.Wal.Retry.{Settles, nothing_built, submit-Settles, submit-kept_frame_lost}

-- The fields one behind the other, filled up to 64.
abbrev filled : WalRecord → List ℕ
filled f =
    f.stamp
    ∷ (f.expiry
        ∷ (f.lock_id ∷ (f.lease_id ∷ (f.lease_ms ∷ (f.tag ∷ (f.holder ++ replicate 42 0))))))

abbrev read_fields : List ℕ → Option WalRecord
read_fields (a ∷ (b ∷ (c ∷ (d ∷ (e ∷ (t ∷ rest)))))) = some (record {
  stamp = a;
  expiry = b;
  lock_id = c;
  lease_id = d;
  holder = take 16 rest;
  lease_ms = e;
  tag = t;
})
read_fields _ = none

abbrev plain_codec : Codec
plain_codec = record {
  encode_fields = λ f. if length f.holder == 16 then some (filled f) else none;
  decode_fields = read_fields;
  encode_frame = λ f name taken renewals tags. some (f.lock_id ∷ name);
}

abbrev plain_lease : Lease
plain_lease = record {
  lease_id = 70;
  holder = no_holder;
  expiry = 5000;
  lease_ms = 100;
  name = none;
  labels = none;
  taken_at_ms = 0;
  renew_count = 0;
}

abbrev two_locks : List (ℕ × Lease)
two_locks = (7, plain_lease) ∷ ((9, plain_lease) ∷ [])

labels-labels_to_tag_bytes_example :
    labels (labels_to_tag_bytes ((97 ∷ []) ∷ ([] ∷ ((98 ∷ []) ∷ []))))
    ≡ (97 ∷ []) ∷ ([] ∷ ((98 ∷ []) ∷ []))
labels-labels_to_tag_bytes_example =
    labels-labels_to_tag_bytes (97 ∷ []) ([] ∷ ((98 ∷ []) ∷ [])) (refl, (refl, (refl, tt)))

abbrev noted : WalSnapshotStore
noted = record { changed = 7 ∷ []; durable = []; is_dead = false }

submit-Settles_example :
    Settles noted
      (build plain_codec 1 two_locks (7 ∷ []) (nothing_built noted))
      (submit plain_codec 1 two_locks code_eagain code_ok noted)
submit-Settles_example = submit-Settles plain_codec 1 two_locks code_eagain code_ok noted

-- A durable lock that was held.
abbrev held_entry : DurableEntry
held_entry = record {
  name = 47 ∷ (97 ∷ []);
  labels = [];
  taken_at_ms = 1;
  renew_count = 2;
  lease_id = 3;
  kept = false;
}

held_known : get 8 ((8, held_entry) ∷ []) ≡ some held_entry
unfolding get
held_known = refl

nothing_there : get {A = Lease} 8 [] ≡ none
unfolding get
nothing_there = refl

held_encoded : frame_encode plain_codec 1 (kept_change 8 held_entry) ≡ some (8 ∷ (47 ∷ (97 ∷ [])))
unfolding frame_encode
held_encoded = refl

submit-kept_frame_lost_example :
    let first =
      submit plain_codec 1 [] code_ok code_eagain
        (record { changed = 8 ∷ []; durable = (8, held_entry) ∷ []; is_dead = false }) in
    let second = submit plain_codec 2 [] code_ok code_ok first.store in
    (first.result ≡ err code_eagain)
    × (second.result ≡ ok 0)
    × (second.took_frames ≡ [])
    × (second.store.changed ≡ [])
submit-kept_frame_lost_example =
    submit-kept_frame_lost plain_codec 1 2 [] code_ok code_ok 8 ((8, held_entry) ∷ []) held_entry
      (8 ∷ (47 ∷ (97 ∷ []))) nothing_there held_known refl held_encoded refl
