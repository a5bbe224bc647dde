-- ===== src/BenchStore/History.antt =====
-- What the accepted calls of a run were, as far as its phase tells.
use Prim.Native.String.{String}
use text.Mathlib.TextEquality.{eq_iff}
use lunet_locks.Prelude.{ℕ, ◌≡◌, refl, Bool, none, some, List, [], ◌∷◌, arith, if◌then◌else◌}
use lunet_locks.BenchStore.{
  stopping, stopped, Phase, first_boot, latch, running, expect_stopping, expect_drain,
  expect_stopped, clean_boot, dirty_boot, unseated, stop_from_unseated, Reply, verdict_stopped,
  NodeDiscipline, new, violate, refusal, signal_clean_stop, signal_crash, signal_clean_stop_in,
  signal_crash_in, read_in, commit_in, drain_in, on_read, on_commit, on_drain, Call, unparseable,
  read, drain, unknown, commit, is_refusal, reply_to, handle_line,
}

-- The scenario's signals and the node's calls.
pub data Event : Type 0 where
  clean_stop crash : Event
  call : Call → Event

-- The discipline, and the accepted calls, the latest first.
pub record Run : Type 0 where
  pub discipline : NodeDiscipline
  pub history : List Call

abbrev extend : Bool → Call → List Call → List Call
extend was_refused c h = if was_refused then h else c ∷ h

unfoldable pub step : Run → Event → Run
step r clean_stop = record r { discipline = signal_clean_stop r.discipline }
step r crash = record r { discipline = signal_crash r.discipline }
step r (call c) = record {
  discipline = (handle_line r.discipline c).0;
  history = extend (is_refusal (handle_line r.discipline c).1) c r.history;
}

unfoldable pub run : Run → List Event → Run
run r [] = r
run r (e ∷ es) = run (step r e) es

abbrev pub start : Run
start = record { discipline = new; history = [] }

abbrev pub StoppingFirst : List Call → Type 0
StoppingFirst (commit (some i) m ∷ h) = m ≡ stopping
StoppingFirst _ = ⊥

abbrev pub DrainFirst : List Call → Type 0
DrainFirst (drain ∷ h) = StoppingFirst h
DrainFirst _ = ⊥

-- The three latest accepted calls were `commit(stopping)`, `drain` and `commit(stopped)`.
abbrev pub StoppedFirst : List Call → Type 0
StoppedFirst (commit (some i) m ∷ h) = (m ≡ stopped) × DrainFirst h
StoppedFirst _ = ⊥

abbrev pub Traced : Phase → List Call → Type 0
Traced expect_drain h = StoppingFirst h
Traced expect_stopped h = DrainFirst h
Traced clean_boot h = StoppedFirst h
Traced _ h = Unit

abbrev After : NodeDiscipline × Reply → Call → List Call → Type 0
After (d, reply) c h = Traced d.phase (extend (is_refusal reply) c h)

commit_in-After :
    (p : Phase) (d : NodeDiscipline) (i : ℕ) (m : String) (h : List Call)
    → d.phase ≡ p
    → Traced p h
    → After (commit_in p d i m) (commit (some i) m) h
unfolding commit_in refusal
commit_in-After latch d i m h e t = ground arith
commit_in-After expect_stopping d i m h e t = ground (arith, eq_iff m stopping)
commit_in-After unseated d i m h e t = ground arith
commit_in-After expect_stopped d i m h e t = ground (arith, eq_iff m stopped)
commit_in-After stop_from_unseated d i m h e t = ground arith
commit_in-After dirty_boot d i m h e t = ground arith
commit_in-After p d i m h e t = ground arith

read_in-After :
    (p : Phase) (d : NodeDiscipline) (h : List Call)
    → d.phase ≡ p
    → Traced p h
    → After (read_in p d) read h
unfolding read_in refusal
read_in-After first_boot d h e t = ground arith
read_in-After p d h e t = ground arith

drain_in-After :
    (p : Phase) (d : NodeDiscipline) (h : List Call)
    → d.phase ≡ p
    → Traced p h
    → After (drain_in p d) drain h
unfolding drain_in refusal
drain_in-After expect_drain d h e t = ground arith
drain_in-After p d h e t = ground arith

reply_to-After :
    (d : NodeDiscipline) (c : Call) (h : List Call) → Traced d.phase h → After (reply_to d c) c h
unfolding reply_to on_read on_commit on_drain refusal
reply_to-After d unparseable h t = t
reply_to-After d read h t = read_in-After d.phase (record d { bump_rounds = 0 }) h refl t
reply_to-After d (commit none m) h t = t
reply_to-After d (commit (some i) m) h t = commit_in-After d.phase d i m h refl t
reply_to-After d drain h t = drain_in-After d.phase d h refl t
reply_to-After d unknown h t = t

clean_stop-Traced :
    (p : Phase) (d : NodeDiscipline) (h : List Call)
    → d.phase ≡ p
    → Traced p h
    → Traced (signal_clean_stop_in p d).phase h
unfolding signal_clean_stop_in violate
clean_stop-Traced running d h e t = tt
clean_stop-Traced p d h e t = ground arith

crash-Traced :
    (p : Phase) (d : NodeDiscipline) (h : List Call)
    → d.phase ≡ p
    → Traced p h
    → Traced (signal_crash_in p d).phase h
unfolding signal_crash_in violate
crash-Traced running d h e t = tt
crash-Traced p d h e t = ground arith

step-Traced :
    (r : Run) (e : Event)
    → Traced r.discipline.phase r.history
    → Traced (step r e).discipline.phase (step r e).history
unfolding step handle_line signal_clean_stop signal_crash
step-Traced r clean_stop t = clean_stop-Traced r.discipline.phase r.discipline r.history refl t
step-Traced r crash t = crash-Traced r.discipline.phase r.discipline r.history refl t
step-Traced r (call c) t = reply_to-After r.discipline c r.history t

run-Traced :
    (r : Run) (es : List Event)
    → Traced r.discipline.phase r.history
    → Traced (run r es).discipline.phase (run r es).history
unfolding run
run-Traced r [] t = t
run-Traced r (e ∷ es) t = run-Traced (step r e) es (step-Traced r e t)

stopped-clean_boot :
    (p : Phase) (d : NodeDiscipline) (i : ℕ)
    → (read_in p d).1 ≡ verdict_stopped i
    → (p ≡ clean_boot) × (i ≡ d.incarnation)
unfolding read_in refusal
stopped-clean_boot first_boot d i h = cc
stopped-clean_boot p d i h = ground arith

-- After any signals and calls since the first boot: a boot read is answered `stopped` only if the
-- latest accepted calls were `commit(stopping)`, `drain` and `commit(stopped)`, in that order and
-- with no accepted call between or after them, and the answer carries the recorded incarnation.
pub stopped_earned :
    (es : List Event) (i : ℕ)
    → (on_read (run start es).discipline).1 ≡ verdict_stopped i
    → StoppedFirst (run start es).history × (i ≡ (run start es).discipline.incarnation)
unfolding on_read
stopped_earned es i h =
    let r : Run = run start es in
    let (p, e) =
      stopped-clean_boot r.discipline.phase (record r.discipline { bump_rounds = 0 }) i h in
    (subst_traced r.discipline.phase r.history p (run-Traced start es tt), e)
  where
    subst_traced : (p : Phase) (h : List Call) → p ≡ clean_boot → Traced p h → StoppedFirst h
    subst_traced p h e t = rw e at t
