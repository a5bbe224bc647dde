-- ===== src/Aof/Sealing.antt =====
-- The first half of a roll: the pad, the flush and the fsync, whatever the disk answers.
use lunet_locks.Prelude.{
  ℕ, ◌-◌, ◌*◌, ◌≤◌, ◌≡◌, refl, sym, ap, ◌∙◌, inl, true, false, Option, none, some, List, [], ◌++◌,
  append_assoc, append-nil, arith, ==_iff, length, take, replicate, length-append, take-append,
  length-replicate, All,
}
use lunet_locks.Journal.Record.{JournalEvent}
use lunet_locks.Journal.RoundTrip.{IsEvent}
use lunet_locks.Journal.FileParse.{encode_all, length-encode_all}
use lunet_locks.Aof.Core.{
  roll_bytes, AofCore, Call, sync_call, Stopped, flush_buf, sync_answered, asserted,
}
use lunet_locks.Aof.Log.{
  Log, file_events, padded, files_from, Represents, Fails, StopsFine, is_assert, Post, Post-mono,
}
use lunet_locks.Aof.Flush.{Flushed, CutShort, flush_buf-Post, CutShort-Recoverable}

-- The active file has the whole block with its pad.
pub record Full (log : Log) (c : AofCore) : Type 0 where
  pub content_same : c.sink.content ≡ padded log.current
  pub at_end : c.sink.offset ≡ roll_bytes
  pub emptied : c.buf ≡ []
  pub files_same : c.rolled ≡ files_from [] log.finished
  pub opened : c.is_open ≡ true

pub length-padded :
    (es : List JournalEvent)
    → All IsEvent es
    → length es ≤ file_events
    → length (padded es) ≡ roll_bytes
length-padded es v fits = omega (
  arith,
  length-append (encode_all es) (replicate (roll_bytes - 61 * length es) 0),
  length-encode_all es v,
  length-replicate {A = ℕ} (roll_bytes - 61 * length es) 0,
  fits,
)

abbrev pub stop_at : Call → AofCore → ℕ → Stopped
stop_at call c calls = record { call = call; left = record c { calls = calls } }

pub Full-StopsFine :
    (disk : ℕ → Option ℕ) (log : Log) (call : Call) (c : AofCore) (calls : ℕ)
    → Full log c
    → is_assert call ≡ false
    → Fails disk
    → StopsFine disk log (stop_at call c calls)
Full-StopsFine disk log call c calls f a fails = (
  fails,
  a,
  inl (record {
    kept = length (padded log.current);
    zeros = roll_bytes - 61 * length log.current;
    content_same =
        f.content_same
        ∙ (sym (take-append (length (padded log.current)) (padded log.current) [] refl)
            ∙ ap (take (length (padded log.current))) (append-nil (padded log.current)));
    files_same = f.files_same;
    opened = f.opened;
  }),
)

pub pad-Full :
    (disk : ℕ → Option ℕ) (log : Log) (c : AofCore)
    → Represents log c
    → Post
        (Full log)
        (StopsFine disk log)
        (flush_buf disk (record c { buf = c.buf ++ replicate (roll_bytes - c.written) 0 }))
pad-Full disk log c r =
    let p : AofCore = record c { buf = c.buf ++ replicate (roll_bytes - c.written) 0 } in
    let bytes : p.sink.content ++ p.buf ≡ padded log.current =
      sym (append_assoc c.sink.content c.buf (replicate (roll_bytes - c.written) 0))
      ∙ (ap (λ xs. xs ++ replicate (roll_bytes - c.written) 0) r.bytes_same
          ∙ ap (λ n. encode_all log.current ++ replicate (roll_bytes - n) 0) r.counted) in
    Post-mono (Flushed p) _ (CutShort disk p) _ (flush_buf disk p) (flush_buf-Post disk p r.at_end)
      (λ c' f.
        let whole : c'.sink.content ≡ padded log.current = f.content_same ∙ bytes in
        record {
          content_same = whole;
          at_end =
              f.at_end ∙ (ap (λ xs. length xs) whole ∙ length-padded log.current r.valid r.fits);
          emptied = f.emptied;
          files_same = f.files_same ∙ r.files_same;
          opened = f.opened_same ∙ r.opened;
        })
      (λ s t.
        CutShort-Recoverable disk log p s (roll_bytes - 61 * length log.current) bytes r.files_same
          r.opened t)

pub sync-Full :
    (disk : ℕ → Option ℕ) (k : ℕ) (answer : Option ℕ) (log : Log) (c : AofCore) (calls : ℕ)
    → Full log c
    → disk k ≡ answer
    → Post (Full log) (StopsFine disk log) (sync_answered answer (record c { calls = calls }))
unfolding Post sync_answered
sync-Full disk k none log c calls f answered = record {
  content_same = f.content_same;
  at_end = f.at_end;
  emptied = f.emptied;
  files_same = f.files_same;
  opened = f.opened;
}
sync-Full disk k (some n) log c calls f answered =
    Full-StopsFine disk log sync_call c calls f refl (k, n, answered)

-- The assertion holds.
pub asserted-Full :
    (disk : ℕ → Option ℕ) (log : Log) (c : AofCore)
    → Full log c
    → Post (Full log) (StopsFine disk log) (asserted c)
asserted-Full disk log c f = unfold Post in rw ((==_iff _ _).1 f.at_end) f
