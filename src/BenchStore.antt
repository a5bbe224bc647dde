-- ===== src/BenchStore.antt =====
-- examples/lease-sequencer/src/bench_store.rs: the discipline that the bench driver holds each node's
-- lifecycle-marker calls to. A wire line is taken after its JSON is read; the text of a violation is
-- kept as data.
mod History
mod Cycles
mod Tests
use Prim.Native.String.{String}
use text.Mathlib.Text.{◌==◌ as str_eq}
use lunet_locks.Prelude.{
  ℕ, ◌+◌, ◌%◌, ◌^◌, Bool, true, false, ◌&&◌, ◌||◌, Option, none, some, ltb, leb, ◌==◌,
  if◌then◌else◌,
}

-- STOPPING, STOPPED, RESTARTING, JOINING
abbrev pub stopping : String
stopping = "stopping"

abbrev pub stopped : String
stopped = "stopped"

abbrev pub restarting : String
restarting = "restarting"

abbrev pub joining : String
joining = "joining"

unfoldable pub is_sentinel : String → Bool
is_sentinel marker = str_eq marker restarting || str_eq marker joining

pub data Phase : Type 0 where
  first_boot latch running expect_stopping expect_drain expect_stopped : Phase
  clean_boot dirty_boot unseated stop_from_unseated : Phase

-- The calls and signals that the driver refuses, as its messages name them.
pub data Surprise : Type 0 where
  stop_signalled crash_signalled unsignalled_read unexpected_drain : Phase → Surprise
  unexpected_commit : ℕ → String → Phase → Surprise
  unparseable_call no_incarnation unknown_op : Surprise

-- The reply's JSON.
pub data Reply : Type 0 where
  verdict_none accepted : Reply
  verdict_stopped verdict_joining : ℕ → Reply
  refused : Surprise → Reply

pub record NodeDiscipline : Type 0 where
  pub incarnation : ℕ
  pub marker : Option String
  pub phase : Phase
  pub bump_rounds : ℕ
  pub violation : Option Surprise

abbrev pub new : NodeDiscipline
new = record {
  incarnation = 0;
  marker = none;
  phase = first_boot;
  bump_rounds = 0;
  violation = none;
}

abbrev pub first_of_two : Option Surprise → Surprise → Option Surprise
first_of_two none what = some what
first_of_two (some v) what = some v

unfoldable pub violate : NodeDiscipline → Surprise → NodeDiscipline
violate d what = record d { violation = first_of_two d.violation what }

unfoldable pub refusal : NodeDiscipline → Surprise → NodeDiscipline × Reply
unfolding violate
refusal d what = (violate d what, refused what)

signal_clean_stop_in : Phase → NodeDiscipline → NodeDiscipline
signal_clean_stop_in running d = record d { phase = expect_stopping }
signal_clean_stop_in unseated d = record d { phase = stop_from_unseated }
signal_clean_stop_in phase d = violate d (stop_signalled phase)

unfoldable pub signal_clean_stop : NodeDiscipline → NodeDiscipline
unfolding signal_clean_stop_in violate
signal_clean_stop d = signal_clean_stop_in d.phase d

signal_crash_in : Phase → NodeDiscipline → NodeDiscipline
signal_crash_in running d = record d { phase = dirty_boot }
signal_crash_in unseated d = record d { phase = dirty_boot }
signal_crash_in phase d = violate d (crash_signalled phase)

unfoldable pub signal_crash : NodeDiscipline → NodeDiscipline
unfolding signal_crash_in violate
signal_crash d = signal_crash_in d.phase d

abbrev is_clear : Option Surprise → Bool
is_clear none = true
is_clear (some v) = false

abbrev is_resting : Phase → Bool
is_resting running = true
is_resting unseated = true
is_resting clean_boot = true
is_resting dirty_boot = true
is_resting stop_from_unseated = true
is_resting _ = false

unfoldable pub at_rest : NodeDiscipline → Bool
at_rest d = is_clear d.violation && is_resting d.phase

abbrev is_serving : Phase → Bool
is_serving running = true
is_serving unseated = true
is_serving _ = false

unfoldable pub is_running : NodeDiscipline → Bool
is_running d = is_clear d.violation && is_serving d.phase

read_in : Phase → NodeDiscipline → NodeDiscipline × Reply
read_in first_boot d = (record d { phase = latch }, verdict_none)
read_in clean_boot d = (record d { phase = latch }, verdict_stopped d.incarnation)
read_in dirty_boot d = (record d { phase = unseated }, verdict_joining d.incarnation)
read_in stop_from_unseated d = (record d { phase = unseated }, verdict_joining d.incarnation)
read_in phase d = refusal d (unsignalled_read phase)

unfoldable pub on_read : NodeDiscipline → NodeDiscipline × Reply
unfolding read_in refusal
on_read d = read_in d.phase (record d { bump_rounds = 0 })

-- `incarnation.checked_add(1) == Some(next)` of u64.
abbrev pub is_successor : ℕ → ℕ → Bool
is_successor i next = ltb (i + 1) (2 ^ 64) && next == i + 1

commit_in : Phase → NodeDiscipline → ℕ → String → NodeDiscipline × Reply
commit_in latch d i m =
    if is_sentinel m
    then (record d { incarnation = i; marker = some m; phase = running }, accepted)
    else refusal d (unexpected_commit i m latch)
commit_in expect_stopping d i m =
    if str_eq m stopping
    then (record d { marker = some m; phase = expect_drain }, accepted)
    else refusal d (unexpected_commit i m expect_stopping)
commit_in unseated d i m =
    if is_sentinel m && (d.bump_rounds == 0 && is_successor d.incarnation i)
    then (record d { incarnation = i; marker = some m; bump_rounds = 1 }, accepted)
    else if is_sentinel m && (leb 1 d.bump_rounds && i == d.incarnation)
    then (
      record d { marker = some m; bump_rounds = (d.bump_rounds + 1) % 256; phase = running },
      accepted,
    )
    else refusal d (unexpected_commit i m unseated)
commit_in expect_stopped d i m =
    if str_eq m stopped
    then (record d { marker = some m; phase = clean_boot }, accepted)
    else refusal d (unexpected_commit i m expect_stopped)
commit_in stop_from_unseated d i m =
    if is_sentinel m && i == d.incarnation
    then (record d { marker = some m; phase = expect_stopping }, accepted)
    else refusal d (unexpected_commit i m stop_from_unseated)
commit_in dirty_boot d i m =
    if is_sentinel m && i == d.incarnation
    then (record d { marker = some m }, accepted)
    else refusal d (unexpected_commit i m dirty_boot)
commit_in phase d i m = refusal d (unexpected_commit i m phase)

unfoldable pub on_commit : NodeDiscipline → ℕ → String → NodeDiscipline × Reply
unfolding commit_in refusal
on_commit d i m = commit_in d.phase d i m

drain_in : Phase → NodeDiscipline → NodeDiscipline × Reply
drain_in expect_drain d = (record d { phase = expect_stopped }, accepted)
drain_in phase d = refusal d (unexpected_drain phase)

unfoldable pub on_drain : NodeDiscipline → NodeDiscipline × Reply
unfolding drain_in refusal
on_drain d = drain_in d.phase d

-- A wire line as its JSON reads: the op, the incarnation if it is an integer, and the marker, which
-- is the empty string where the field is missing.
pub data Call : Type 0 where
  unparseable read drain unknown : Call
  commit : Option ℕ → String → Call

abbrev is_refusal : Reply → Bool
is_refusal (refused s) = true
is_refusal _ = false

reply_to : NodeDiscipline → Call → NodeDiscipline × Reply
reply_to d unparseable = refusal d unparseable_call
reply_to d read = on_read d
reply_to d (commit none m) = refusal d no_incarnation
reply_to d (commit (some i) m) = on_commit d i m
reply_to d drain = on_drain d
reply_to d unknown = refusal d unknown_op

abbrev latch_of : NodeDiscipline × Reply → (NodeDiscipline × Reply × Bool)
latch_of (d, reply) = (d, reply, is_refusal reply || not_clear d.violation)
  where
    not_clear : Option Surprise → Bool
    not_clear none = false
    not_clear (some v) = true

-- The reply to a wire line, and whether the run's failure flag must latch. An unparseable line
-- latches it at once; its refusal carries an error like every other.
unfoldable pub handle_line : NodeDiscipline → Call → NodeDiscipline × Reply × Bool
unfolding reply_to refusal
handle_line d call = latch_of (reply_to d call)
