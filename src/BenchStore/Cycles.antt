-- ===== src/BenchStore/Cycles.antt =====
-- The two boot cycles of an identity, and how violations latch.
use Prim.Native.String.{String}
use lunet_locks.Prelude.{ℕ, ◌+◌, ◌^◌, ◌<◌, ◌≡◌, ◌≢◌, ◌↔◌, true, none, some, List, [], ◌∷◌, arith}
use lunet_locks.BenchStore.{
  stopping, stopped, Phase, latch, running, Surprise, accepted, verdict_stopped, verdict_joining,
  refused, NodeDiscipline, refusal, signal_clean_stop, signal_crash, commit_in, on_read, on_commit,
  on_drain, Call, unparseable, read, drain, unknown, commit, is_refusal, reply_to, handle_line,
  is_sentinel, unexpected_commit,
}
use lunet_locks.BenchStore.History.{Event, clean_stop, crash, call, Run, step, run}

-- The violation that stands is kept.
abbrev Keeps : Surprise → NodeDiscipline → Type 0
Keeps v d = d.violation ≡ some v

commit_in-Keeps :
    (p : Phase) (d : NodeDiscipline) (i : ℕ) (m : String) (v : Surprise)
    → Keeps v d
    → Keeps v (commit_in p d i m).0
unfolding commit_in refusal
commit_in-Keeps latch d i m v k = ground arith
commit_in-Keeps p d i m v k = ground arith

reply_to-Keeps :
    (d : NodeDiscipline) (c : Call) (v : Surprise) → Keeps v d → Keeps v (reply_to d c).0
unfolding reply_to on_read on_commit on_drain refusal
reply_to-Keeps d unparseable v k = ground arith
reply_to-Keeps d read v k = ground arith
reply_to-Keeps d (commit none m) v k = ground arith
reply_to-Keeps d (commit (some i) m) v k = commit_in-Keeps d.phase d i m v k
reply_to-Keeps d drain v k = ground arith
reply_to-Keeps d unknown v k = ground arith

step-Keeps :
    (r : Run) (e : Event) (v : Surprise) → Keeps v r.discipline → Keeps v (step r e).discipline
unfolding step handle_line signal_clean_stop signal_crash
step-Keeps r clean_stop v k = ground arith
step-Keeps r crash v k = ground arith
step-Keeps r (call c) v k = reply_to-Keeps r.discipline c v k

-- The first violation is kept whole, whatever signals and calls follow.
pub run-Keeps :
    (r : Run) (es : List Event) (v : Surprise)
    → r.discipline.violation ≡ some v
    → (run r es).discipline.violation ≡ some v
unfolding run
run-Keeps r [] v k = k
run-Keeps r (e ∷ es) v k = run-Keeps (step r e) es v (step-Keeps r e v k)

refusal-violates : (d : NodeDiscipline) (s : Surprise) → (refusal d s).0.violation ≢ none
unfolding refusal
refusal-violates d s = ground arith

commit_in-violates :
    (p : Phase) (d : NodeDiscipline) (i : ℕ) (m : String)
    → is_refusal (commit_in p d i m).1 ≡ true
    → (commit_in p d i m).0.violation ≢ none
unfolding commit_in refusal
commit_in-violates latch d i m h = ground arith
commit_in-violates p d i m h = ground arith

reply_to-violates :
    (d : NodeDiscipline) (c : Call)
    → is_refusal (reply_to d c).1 ≡ true
    → (reply_to d c).0.violation ≢ none
unfolding reply_to on_read on_commit on_drain refusal
reply_to-violates d unparseable h = ground arith
reply_to-violates d read h = ground arith
reply_to-violates d (commit none m) h = ground arith
reply_to-violates d (commit (some i) m) h = commit_in-violates d.phase d i m h
reply_to-violates d drain h = ground arith
reply_to-violates d unknown h = ground arith

-- A wire line latches the run's failure flag exactly where the identity has a violation after it:
-- no refusal goes unlatched, and no lawful call on a clean identity latches.
pub handle_line-latch :
    (d : NodeDiscipline) (c : Call)
    → ((handle_line d c).2 ≡ true) ↔ ((handle_line d c).0.violation ≢ none)
unfolding handle_line
handle_line-latch d c = ground (arith, reply_to-violates d c)

-- The clean cycle of a running identity: after a stop signal the calls `commit(stopping)`, `drain`,
-- `commit(stopped)` and the next boot's read are all accepted, the read answers `stopped` with the
-- identity's incarnation, and the boot then waits for its latch, with no new violation.
pub clean_cycle :
    (d : NodeDiscipline) (i j : ℕ)
    → d.phase ≡ running
    → let a = signal_clean_stop d in
      let b = on_commit a i stopping in
      let c = on_drain b.0 in
      let e = on_commit c.0 j stopped in
      let f = on_read e.0 in
      (b.1 ≡ accepted)
      × (c.1 ≡ accepted)
      × (e.1 ≡ accepted)
      × (f.1 ≡ verdict_stopped d.incarnation)
      × (f.0.phase ≡ latch)
      × (f.0.violation ≡ d.violation)
unfolding signal_clean_stop on_commit on_drain on_read
clean_cycle d i j h = ground arith

-- The dirty cycle: after a crash signal the next boot's read answers `joining` with the recorded
-- incarnation; the bump's sentinel round at the next incarnation and the seated latch's round at
-- the same one are accepted, and the identity runs one incarnation further; a third such round is
-- refused. The incarnation stays a u64.
pub dirty_cycle :
    (d : NodeDiscipline) (m n o : String)
    → d.phase ≡ running
    → d.incarnation + 1 < 2 ^ 64
    → is_sentinel m ≡ true
    → is_sentinel n ≡ true
    → let next = d.incarnation + 1 in
      let a = on_read (signal_crash d) in
      let b = on_commit a.0 next m in
      let c = on_commit b.0 next n in
      let e = on_commit c.0 next o in
      (a.1 ≡ verdict_joining d.incarnation)
      × (b.1 ≡ accepted)
      × (c.1 ≡ accepted)
      × (c.0.phase ≡ running)
      × (c.0.incarnation ≡ next)
      × (c.0.violation ≡ d.violation)
      × (e.1 ≡ refused (unexpected_commit next o running))
unfolding signal_crash on_commit on_read
dirty_cycle d m n o h lt hm hn = ground arith
