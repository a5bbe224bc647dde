-- ===== src/Journal/Window.antt =====
-- The rolling window of the open file: the ranges of its times and expiries, and its count.
use lunet_locks.Prelude.{
  ℕ, ◌+◌, ◌%◌, ◌^◌, ◌≤◌, ◌≡◌, refl, Option, none, some, List, [], ◌∷◌, ◌++◌, min, max, arith,
  length, append-nil, append_assoc, length-append, All, All-mono, All-append,
}
use lunet_locks.Journal.Record.{JournalEvent, Meta}

pub record Window : Type 0 where
  pub op_min : ℕ
  pub op_max : ℕ
  pub expiry_min : ℕ
  pub expiry_max : ℕ
  pub count : ℕ

unfoldable pub new_window : JournalEvent → Window
new_window e = record {
  op_min = e.ts;
  op_max = e.ts;
  expiry_min = e.expiry;
  expiry_max = e.expiry;
  count = 1;
}

unfoldable pub update : Window → JournalEvent → Window
update w e = record {
  op_min = min w.op_min e.ts;
  op_max = max w.op_max e.ts;
  expiry_min = min w.expiry_min e.expiry;
  expiry_max = max w.expiry_max e.expiry;
  count = (w.count + 1) % 2 ^ 32;
}

unfoldable pub meta_of : Window → Meta
meta_of w = record {
  op_min = w.op_min;
  op_max = w.op_max;
  expiry_min = w.expiry_min;
  expiry_max = w.expiry_max;
  count = w.count;
}

-- `match &mut window { Some(w) => w.update(event), None => window = Some(Window::new(event)) }`
unfoldable pub note : Option Window → JournalEvent → Option Window
unfolding new_window update
note none e = some (new_window e)
note (some w) e = some (update w e)

unfoldable pub note_all : Option Window → List JournalEvent → Option Window
unfolding note
note_all w [] = w
note_all w (e ∷ es) = note_all (note w e) es

pub note_all-append :
    (w : Option Window) (es fs : List JournalEvent)
    → note_all w (es ++ fs) ≡ note_all (note_all w es) fs
unfolding note_all
note_all-append w [] fs = refl
note_all-append w (e ∷ es) fs = note_all-append (note w e) es fs

-- An event's time and expiry lie in the window's ranges.
pub record Inside (w : Window) (e : JournalEvent) : Type 0 where
  pub ts_from : w.op_min ≤ e.ts
  pub ts_to : e.ts ≤ w.op_max
  pub expiry_from : w.expiry_min ≤ e.expiry
  pub expiry_to : e.expiry ≤ w.expiry_max

-- The window is that of the events: they all lie inside, and they are as many as it counts.
abbrev pub Describes : Option Window → List JournalEvent → Type 0
Describes none es = es ≡ []
Describes (some w) es = All (Inside w) es × (w.count ≡ length es % 2 ^ 32)

update-Inside : (w : Window) (e f : JournalEvent) → Inside w f → Inside (update w e) f
unfolding update
update-Inside w e f h = record {
  ts_from = omega (arith, h.ts_from);
  ts_to = omega (arith, h.ts_to);
  expiry_from = omega (arith, h.expiry_from);
  expiry_to = omega (arith, h.expiry_to);
}

note-Describes :
    (w : Option Window) (es : List JournalEvent) (e : JournalEvent)
    → Describes w es
    → Describes (note w e) (es ++ e ∷ [])
unfolding note
note-Describes none [] e h = (
  (
    record {
      ts_from = omega arith;
      ts_to = omega arith;
      expiry_from = omega arith;
      expiry_to = omega arith;
    },
    tt,
  ),
  omega arith,
)
note-Describes none (f ∷ es) e h = cc
note-Describes (some w) es e h = (
  All-append _ es (e ∷ []) (All-mono _ _ es (λ f i. update-Inside w e f i) h.0) (
    record {
      ts_from = omega arith;
      ts_to = omega arith;
      expiry_from = omega arith;
      expiry_to = omega arith;
    },
    tt,
  ),
  omega (arith, length-append es (e ∷ []), h.1),
)

note_all-from :
    (w : Option Window) (done rest : List JournalEvent)
    → Describes w done
    → Describes (note_all w rest) (done ++ rest)
unfolding note_all
note_all-from w done [] h = rw append-nil h
note_all-from w done (e ∷ rest) h =
    rw (append_assoc done (e ∷ []) rest) at
      (note_all-from (note w e) (done ++ e ∷ []) rest (note-Describes w done e h))

-- The window kept over any events describes them: every event's time and expiry lie in its ranges,
-- and its count is their number, modulo 2^32; there is no window only where there are no events.
pub note_all-Describes : (es : List JournalEvent) → Describes (note_all none es) es
note_all-Describes es = note_all-from none [] es refl
