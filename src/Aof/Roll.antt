-- ===== src/Aof/Roll.antt =====
-- Rolling the active file, whatever the disk answers.
use lunet_locks.Prelude.{
  ℕ, ◌+◌, ◌≡◌, refl, sym, ap, ◌∙◌, subst, inr, false, not, Option, none, some, List, [], ◌∷◌, ◌++◌,
  arith, keep,
}
use lunet_locks.Journal.Record.{Meta}
use lunet_locks.Journal.Window.{Window, meta_of, note_all}
use lunet_locks.Journal.Files.{
  RolledFile, same_name, standing_metafile, metafile_behind, rename_onto,
}
use lunet_locks.Aof.Core.{
  AofCore, Call, rename_call, metafile_call, create_call, rename_answered, put_metafile,
  metafile_answered, create_answered, roll_window, rolled_by, roll,
}
use lunet_locks.Aof.Log.{
  Log, file_as, add_named, files_from, files_from-append, Represents, Fails, StopsFine, is_assert,
  Post, Post-bind,
}
use lunet_locks.Aof.Sealing.{Full, stop_at, Full-StopsFine, pad-Full, sync-Full, asserted-Full}

-- The file has its final name.
record Named (log : Log) (w : Window) (m : Option Meta) (c : AofCore) : Type 0 where
  emptied : c.buf ≡ []
  files_same : c.rolled ≡ rename_onto (files_from [] log.finished) (file_as w log.current m)
  closed : c.is_open ≡ false

abbrev pub rolled_log : Log → Log
rolled_log log = record { finished = log.finished ++ log.current ∷ []; current = [] }

rename-Named :
    (disk : ℕ → Option ℕ) (k : ℕ) (answer : Option ℕ) (log : Log) (w : Window) (c : AofCore)
    (calls : ℕ)
    → Full log c
    → disk k ≡ answer
    → Post
        (Named log w none)
        (StopsFine disk log)
        (rename_answered answer (meta_of w) (record c { calls = calls }))
unfolding Post rename_answered
rename-Named disk k none log w c calls f answered = record {
  emptied = f.emptied;
  files_same = λ i.
      rename_onto (f.files_same i)
        (record { name = meta_of w; bytes = f.content_same i; metafile = none });
  closed = refl;
}
rename-Named disk k (some n) log w c calls f answered =
    Full-StopsFine disk log rename_call c calls f refl (k, n, answered)

Named-StopsFine :
    (disk : ℕ → Option ℕ) (log : Log) (w : Window) (m : Option Meta) (call : Call) (c : AofCore)
    (calls : ℕ)
    → note_all none log.current ≡ some w
    → Named log w m c
    → is_assert call ≡ false
    → Fails disk
    → StopsFine disk log (stop_at call c calls)
Named-StopsFine disk log w m call c calls e n a fails = (
  fails,
  a,
  inr (record {
    window = w;
    metafile = m;
    window_same = e;
    files_same = n.files_same;
    closed = n.closed;
  }),
)

put_metafile-last :
    (m : Meta) (files : List RolledFile) (f : RolledFile)
    → put_metafile m (files ++ f ∷ []) ≡ files ++ record f { metafile = some m } ∷ []
unfolding put_metafile
put_metafile-last m [] f = refl
put_metafile-last m (g ∷ []) f = refl
put_metafile-last m (g ∷ (h ∷ files)) f = ap (◌∷◌ g) (put_metafile-last m (h ∷ files) f)

put_metafile-rename_onto :
    (m : Meta) (files : List RolledFile) (f : RolledFile)
    → put_metafile m (rename_onto files f) ≡ rename_onto files (record f { metafile = some m })
unfolding rename_onto
put_metafile-rename_onto m files f =
    put_metafile-last m (keep (λ g. not (same_name f.name g.name)) files)
      (record f { metafile = metafile_behind f.metafile (standing_metafile f.name files) })

metafile-Named :
    (disk : ℕ → Option ℕ) (k : ℕ) (answer : Option ℕ) (log : Log) (w : Window) (c : AofCore)
    (calls : ℕ)
    → note_all none log.current ≡ some w
    → Named log w none c
    → disk k ≡ answer
    → Post
        (Named log w (some (meta_of w)))
        (StopsFine disk log)
        (metafile_answered answer (meta_of w) (record c { calls = calls }))
unfolding Post metafile_answered
metafile-Named disk k none log w c calls e n answered = record {
  emptied = n.emptied;
  files_same =
      ap (put_metafile (meta_of w)) n.files_same
      ∙ put_metafile-rename_onto (meta_of w) (files_from [] log.finished)
          (file_as w log.current none);
  closed = n.closed;
}
metafile-Named disk k (some m) log w c calls e n answered =
    Named-StopsFine disk log w none metafile_call c calls e n refl (k, m, answered)

create-Represents :
    (disk : ℕ → Option ℕ) (k : ℕ) (answer : Option ℕ) (log : Log) (w : Window) (c : AofCore)
    (calls : ℕ)
    → note_all none log.current ≡ some w
    → Named log w (some (meta_of w)) c
    → disk k ≡ answer
    → Post
        (Represents (rolled_log log))
        (StopsFine disk log)
        (create_answered answer (record c { calls = calls }))
unfolding Post create_answered note_all
create-Represents disk k none log w c calls e n answered = record {
  bytes_same = n.emptied;
  at_end = refl;
  counted = refl;
  fits = omega arith;
  window_same = refl;
  files_same =
      n.files_same
      ∙ (unfold add_named in
          sym (
            files_from-append [] log.finished log.current
            ∙ ap (λ x. add_named x log.current (files_from [] log.finished)) e));
  opened = refl;
  valid = tt;
}
create-Represents disk k (some m) log w c calls e n answered =
    Named-StopsFine disk log w (some (meta_of w)) create_call c calls e n refl (k, m, answered)

roll_window-Represents :
    (disk : ℕ → Option ℕ) (log : Log) (w : Window) (c : AofCore)
    → Represents log c
    → note_all none log.current ≡ some w
    → Post (Represents (rolled_log log)) (StopsFine disk log) (roll_window disk w c)
unfolding roll_window
roll_window-Represents disk log w c r e =
    Post-bind (Full log) _ _ _ _ (pad-Full disk log c r) λ c1 f1.
      Post-bind (Full log) _ _ _ _
        (sync-Full disk c1.calls (disk c1.calls) log c1 (c1.calls + 1) f1 refl)
        λ c2 f2. Post-bind (Full log) _ _ _ _ (asserted-Full disk log c2 f2) λ c3 f3.
          Post-bind (Named log w none) _ _ _ _
            (rename-Named disk c3.calls (disk c3.calls) log w c3 (c3.calls + 1) f3 refl)
            λ c4 n4.
              Post-bind (Named log w (some (meta_of w))) _ _ _ _
                (metafile-Named disk c4.calls (disk c4.calls) log w c4 (c4.calls + 1) e n4 refl)
                λ c5 n5.
                  create-Represents disk c5.calls (disk c5.calls) log w c5 (c5.calls + 1) e n5 refl

-- A roll with a window finishes the current file; without one it does nothing.
pub roll-Represents :
    (disk : ℕ → Option ℕ) (log : Log) (w : Window) (c : AofCore)
    → Represents log c
    → note_all none log.current ≡ some w
    → Post (Represents (rolled_log log)) (StopsFine disk log) (roll disk c)
roll-Represents disk log w c r e =
    unfold roll in
    subst (λ x. Post (Represents (rolled_log log)) (StopsFine disk log) (rolled_by disk x c))
      (sym (r.window_same ∙ e)) (roll_window-Represents disk log w c r e)
