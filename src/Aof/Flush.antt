-- ===== src/Aof/Flush.antt =====
-- Flushing and syncing, whatever the disk answers.
use lunet_locks.Prelude.{
  ℕ, suc, ◌+◌, ◌≡◌, refl, sym, ap, ◌∙◌, inl, inr, true, false, Bool-cases, Option, none, some, List,
  [], ◌∷◌, ◌++◌, append-nil, arith, ◌==◌, ==_iff, length, take, replicate, length-append,
  take-append,
}
use lunet_locks.Journal.FileParse.{encode_all}
use lunet_locks.Aof.Sink.{write_at, write_all_blocking}
use lunet_locks.Aof.Ring.{write_at-end}
use lunet_locks.Aof.Core.{
  AofCore, Stopped, wrote_as, write_answered, sync_answered, flush_buf, checkpoint,
}
use lunet_locks.Aof.Log.{
  Log, files_from, Represents, Fails, StopsFine, is_assert, Post, Post-bind, Post-mono,
}

-- The buffer went to the end of the file, and nothing else changed.
pub record Flushed (c c' : AofCore) : Type 0 where
  pub content_same : c'.sink.content ≡ c.sink.content ++ c.buf
  pub at_end : c'.sink.offset ≡ length c'.sink.content
  pub emptied : c'.buf ≡ []
  pub written_same : c'.written ≡ c.written
  pub window_same : c'.window ≡ c.window
  pub files_same : c'.rolled ≡ c.rolled
  pub opened_same : c'.is_open ≡ c.is_open

-- The write failed behind some bytes of the buffer.
pub record CutShort (disk : ℕ → Option ℕ) (c : AofCore) (s : Stopped) : Type 0 where
  pub fails : Fails disk
  pub kept : ℕ
  pub no_assert : is_assert s.call ≡ false
  pub content_same : s.left.sink.content ≡ c.sink.content ++ take kept c.buf
  pub files_same : s.left.rolled ≡ c.rolled
  pub opened_same : s.left.is_open ≡ c.is_open

length_zero : (xs : List ℕ) → (length xs == 0) ≡ true → xs ≡ []
length_zero [] h = refl
length_zero (x ∷ xs) h = absurd (omega (arith, (==_iff (length (x ∷ xs)) 0).0 h))

write_answered-Post :
    (disk : ℕ → Option ℕ) (k : ℕ) (answer : Option ℕ) (c : AofCore) (calls : ℕ)
    → c.sink.offset ≡ length c.sink.content
    → disk k ≡ answer
    → Post
        (Flushed c)
        (CutShort disk c)
        (write_answered answer c.buf (record c { buf = []; calls = calls }))
unfolding Post write_answered wrote_as write_all_blocking
write_answered-Post disk k none c calls h answered = record {
  content_same = (ap (λ n. write_at n c.buf c.sink.content) h ∙ write_at-end c.buf c.sink.content);
  at_end =
      h' (write_at c.sink.offset c.buf c.sink.content)
        (ap (λ n. write_at n c.buf c.sink.content) h ∙ write_at-end c.buf c.sink.content);
  emptied = refl;
  written_same = refl;
  window_same = refl;
  files_same = refl;
  opened_same = refl;
}
  where
    h' :
        (bytes : List ℕ)
        → bytes ≡ c.sink.content ++ c.buf
        → c.sink.offset + length c.buf ≡ length bytes
    h' bytes e = rw e (omega (arith, h, length-append c.sink.content c.buf))
write_answered-Post disk k (some n) c calls h answered = record {
  fails = (k, n, answered);
  kept = n;
  no_assert = refl;
  content_same =
      (ap (λ m. write_at m (take n c.buf) c.sink.content) h
        ∙ write_at-end (take n c.buf) c.sink.content);
  files_same = refl;
  opened_same = refl;
}

-- A flush writes the whole buffer at the end of the file, or stops with a first part of it there.
pub flush_buf-Post :
    (disk : ℕ → Option ℕ) (c : AofCore)
    → c.sink.offset ≡ length c.sink.content
    → Post (Flushed c) (CutShort disk c) (flush_buf disk c)
unfolding Post flush_buf
flush_buf-Post disk c h = elim (Bool-cases (length c.buf == 0)) [
  | inl e ↦ rw e (record {
    content_same =
        (sym (append-nil c.sink.content) ∙ ap (◌++◌ c.sink.content) (sym (length_zero c.buf e)));
    at_end = h;
    emptied = length_zero c.buf e;
    written_same = refl;
    window_same = refl;
    files_same = refl;
    opened_same = refl;
  })
  | inr e ↦ rw e (write_answered-Post disk c.calls (disk c.calls) c (c.calls + 1) h refl)
]

Flushed-Represents :
    (log : Log) (c c' : AofCore) → Represents log c → Flushed c c' → Represents log c'
Flushed-Represents log c c' r f = record {
  bytes_same =
      ap (◌++◌ c'.sink.content) f.emptied
      ∙ (append-nil c'.sink.content ∙ (f.content_same ∙ r.bytes_same));
  at_end = f.at_end;
  counted = f.written_same ∙ r.counted;
  fits = r.fits;
  window_same = f.window_same ∙ r.window_same;
  files_same = f.files_same ∙ r.files_same;
  opened = f.opened_same ∙ r.opened;
  valid = r.valid;
}

take-prefix : (xs ys : List ℕ) (n : ℕ) → xs ++ take n ys ≡ take (length xs + n) (xs ++ ys)
take-prefix [] ys n = ap (λ m. take m ys) zero_add
  where
    zero_add : n ≡ 0 + n
    zero_add = omega arith
take-prefix (x ∷ xs) ys n =
    let m : length (x ∷ xs) + n ≡ suc (length xs + n) = omega arith in
    rw m (ap (◌∷◌ x) (take-prefix xs ys n))

-- A write that stopped within records of the log, or zeros behind them, leaves a torn file.
pub CutShort-Recoverable :
    (disk : ℕ → Option ℕ) (log : Log) (c : AofCore) (s : Stopped) (zeros : ℕ)
    → c.sink.content ++ c.buf ≡ encode_all log.current ++ replicate zeros 0
    → c.rolled ≡ files_from [] log.finished
    → c.is_open ≡ true
    → CutShort disk c s
    → StopsFine disk log s
CutShort-Recoverable disk log c s zeros b f o t = (
  t.fails,
  t.no_assert,
  inl (record {
    kept = length c.sink.content + t.kept;
    zeros = zeros;
    content_same =
        t.content_same
        ∙ (take-prefix c.sink.content c.buf t.kept ∙ ap (take (length c.sink.content + t.kept)) b);
    files_same = t.files_same ∙ f;
    opened = t.opened_same ∙ o;
  }),
)

CutShort-StopsFine :
    (disk : ℕ → Option ℕ) (log : Log) (c : AofCore) (s : Stopped)
    → Represents log c
    → CutShort disk c s
    → StopsFine disk log s
CutShort-StopsFine disk log c s r t =
    CutShort-Recoverable disk log c s 0 (r.bytes_same ∙ sym (append-nil (encode_all log.current)))
      r.files_same r.opened t

-- Flushing changes nothing of the log.
pub flush_buf-Represents :
    (disk : ℕ → Option ℕ) (log : Log) (c : AofCore)
    → Represents log c
    → Post (λ c'. Represents log c' × (c'.buf ≡ [])) (StopsFine disk log) (flush_buf disk c)
flush_buf-Represents disk log c r =
    Post-mono (Flushed c) _ (CutShort disk c) _ (flush_buf disk c) (flush_buf-Post disk c r.at_end)
      (λ c' f. (Flushed-Represents log c c' r f, f.emptied))
      (λ s t. CutShort-StopsFine disk log c s r t)

-- The whole log is in the files, and an fsync has covered all of them.
pub record Durable (log : Log) (c : AofCore) : Type 0 where
  pub content_same : c.sink.content ≡ encode_all log.current
  pub covered : c.sink.synced ≡ length c.sink.content
  pub represents : Represents log c

content_whole :
    (log : Log) (c : AofCore)
    → Represents log c
    → c.buf ≡ []
    → c.sink.content ≡ encode_all log.current
content_whole log c r b =
    sym (append-nil c.sink.content) ∙ (ap (◌++◌ c.sink.content) (sym b) ∙ r.bytes_same)

sync_answered-Durable :
    (disk : ℕ → Option ℕ) (k : ℕ) (answer : Option ℕ) (log : Log) (c : AofCore) (calls : ℕ)
    → Represents log c
    → c.buf ≡ []
    → disk k ≡ answer
    → Post (Durable log) (StopsFine disk log) (sync_answered answer (record c { calls = calls }))
unfolding Post sync_answered
sync_answered-Durable disk k none log c calls r b answered = record {
  content_same = content_whole log c r b;
  covered = refl;
  represents = record {
    bytes_same = r.bytes_same;
    at_end = r.at_end;
    counted = r.counted;
    fits = r.fits;
    window_same = r.window_same;
    files_same = r.files_same;
    opened = r.opened;
    valid = r.valid;
  };
}
sync_answered-Durable disk k (some n) log c calls r b answered = (
  (k, n, answered),
  refl,
  inl (record {
    kept = length c.sink.content;
    zeros = 0;
    content_same =
        sym (take-append (length c.sink.content) c.sink.content [] refl)
        ∙ ap (take (length c.sink.content)) (ap (λ xs. xs ++ []) (content_whole log c r b));
    files_same = r.files_same;
    opened = r.opened;
  }),
)

-- A checkpoint makes the whole log durable.
pub checkpoint-Durable :
    (disk : ℕ → Option ℕ) (log : Log) (c : AofCore)
    → Represents log c
    → Post (Durable log) (StopsFine disk log) (checkpoint disk c)
unfolding checkpoint
checkpoint-Durable disk log c r =
    Post-bind _ _ _ (flush_buf disk c) _ (flush_buf-Represents disk log c r) (λ c' p.
      sync_answered-Durable disk c'.calls (disk c'.calls) log c' (c'.calls + 1) p.0 p.1 refl)
