-- ===== src/Vst3/OutputEvents/Gestures.antt =====
-- The calls of `IAutomation` are bracketed: a parameter is edited only between its begin and its end.
use wrac_plugin_template.Prelude.{
  inr, inl, Option-cases, Bool-cases, ◌≡◌, refl, ◌||◌, ◌&&◌, not, bit_and, ℕ, Bool, true, false,
  ◌==◌, List, [], ◌∷◌, ◌++◌, arith,
}
use wrac_plugin_template.Prelude.Int.{ℤ}
use wrac_plugin_template.Vst3.Output.{Floats, Header, VstEvent}
use wrac_plugin_template.Vst3.Midi1.{Controllers}
use wrac_plugin_template.Vst3.OutputEvents.{
  gesture_end, gesture_begin, param_value, note_off_event, note_on_event, contains, removed,
  Surroundings, ClapEvent, Kind, NoteEvent, Edit, begin_edit, perform_edit, end_edit, Adapter,
  enqueue_note, enqueue_param_value, enqueue_gesture_begin, enqueue_gesture_end, enqueue_kind,
  enqueue_output_event, push_all,
}

contains-append :
    (id x : ℕ) (xs : List ℕ) → contains id (xs ++ x ∷ []) ≡ (x == id || contains id xs)
contains-append id x [] = refl
contains-append id x (y ∷ ys) = ground (arith, contains-append id x ys)

contains-removed :
    (id x : ℕ) (xs : List ℕ) → contains id (removed x xs) ≡ (not (x == id) && contains id xs)
contains-removed id x [] = ground arith
contains-removed id x (y ∷ ys) = ground (arith, contains-removed id x ys)

module _ (floats : Floats) (around : Surroundings floats) (sdk : Controllers) (buses : List ℤ) where
  abbrev Log : Type 0
  Log = List (Edit floats around sdk buses)

  -- Whether a parameter is being edited after the calls of a log, whose head is the last call.
  abbrev pub is_open : ℕ → Log → Bool
  is_open id [] = false
  is_open id (begin_edit x ∷ log) = x == id || is_open id log
  is_open id (perform_edit x v ∷ log) = is_open id log
  is_open id (end_edit x ∷ log) = not (x == id) && is_open id log

  -- Each edit and each end comes while the parameter is being edited.
  abbrev pub is_bracketed : Log → Bool
  is_bracketed [] = true
  is_bracketed (begin_edit x ∷ log) = is_bracketed log
  is_bracketed (perform_edit x v ∷ log) = is_open x log && is_bracketed log
  is_bracketed (end_edit x ∷ log) = is_open x log && is_bracketed log

  -- The gestured parameters are those that the log leaves open.
  pub record IsInStep (a : Adapter floats around sdk buses) : Type 0 where
    pub bracketed : is_bracketed a.edits ≡ true
    pub opened : (id : ℕ) → contains id a.gestured ≡ is_open id a.edits

  -- The log is kept.
  module _ (logged : around.has_automation ≡ true) (a : Adapter floats around sdk buses)
      (s : IsInStep a) where
    param_value-IsInStep :
        (h : Header) (p : ℕ) (v : around.Value)
        → IsInStep (enqueue_param_value floats around sdk buses h p v a)
    unfolding enqueue_param_value
    param_value-IsInStep h p v = elim (Option-cases (around.get_parameter (bit_and p 0x7FFFFFFF))) [
      | inl c ↦ rw (enqueue_param_value, c) s
      | inr (id, c) ↦
          rw (enqueue_param_value, c, logged)
            (record {
              bracketed = ground (arith, s.bracketed, s.opened id);
              opened = λ i. ground (arith, s.opened i);
            })
    ]

    gesture_begin-IsInStep : (p : ℕ) → IsInStep (enqueue_gesture_begin floats around sdk buses p a)
    unfolding enqueue_gesture_begin
    gesture_begin-IsInStep p = elim (Option-cases (around.get_parameter (bit_and p 0x7FFFFFFF))) [
      | inl c ↦ rw (enqueue_gesture_begin, c) s
      | inr (id, c) ↦
          rw (enqueue_gesture_begin, c, logged)
            (record {
              bracketed = s.bracketed;
              opened = λ i. ground (arith, s.opened i, contains-append i id a.gestured);
            })
    ]

    gesture_end-IsInStep : (p : ℕ) → IsInStep (enqueue_gesture_end floats around sdk buses p a)
    unfolding enqueue_gesture_end
    gesture_end-IsInStep p = elim (Option-cases (around.get_parameter (bit_and p 0x7FFFFFFF))) [
      | inl c ↦ rw (enqueue_gesture_end, c) s
      | inr (id, c) ↦ elim (Bool-cases (contains id a.gestured)) [
        | inl d ↦
            rw (enqueue_gesture_end, c, d, logged)
              (record {
                bracketed = ground (arith, s.bracketed, s.opened id);
                opened = λ i. ground (arith, s.opened i, contains-removed i id a.gestured);
              })
        | inr d ↦ rw (enqueue_gesture_end, c, d) s
      ]
    ]

    note-IsInStep :
        (create : Header → ℤ → ℤ → ℤ → floats.Float → ℤ → VstEvent floats) (h : Header)
        (n : NoteEvent floats around sdk buses)
        → IsInStep (enqueue_note floats around sdk buses create h n a).1
    unfolding enqueue_note
    note-IsInStep create h n = record {
      bracketed = ground (arith, s.bracketed);
      opened = λ i. ground (arith, s.opened i);
    }

    kind-IsInStep :
        (h : Header) (k : Kind floats around sdk buses)
        → IsInStep (enqueue_kind floats around sdk buses h k a).1
    kind-IsInStep h (note_on_event n) = note-IsInStep _ h n
    kind-IsInStep h (note_off_event n) = note-IsInStep _ h n
    kind-IsInStep h (param_value p v) = param_value-IsInStep h p v
    kind-IsInStep h (gesture_begin p) = gesture_begin-IsInStep p
    kind-IsInStep h (gesture_end p) = gesture_end-IsInStep p
    kind-IsInStep h k = record { bracketed = s.bracketed; opened = s.opened }

    event-IsInStep :
        (e : ClapEvent floats around sdk buses)
        → IsInStep (enqueue_output_event floats around sdk buses e a).1
    unfolding enqueue_output_event
    event-IsInStep e = elim (Bool-cases (e.header.space_id == around.core_space)) [
      | inl c ↦ rw c (kind-IsInStep e.header e.kind)
      | inr c ↦ rw c s
    ]

  -- While the host listens, the edits that it is told stay bracketed whatever the plugin gives out,
  -- and the gestured parameters are those being edited.
  pub push_all-IsInStep :
      (es : List (ClapEvent floats around sdk buses)) (a : Adapter floats around sdk buses)
      → around.has_automation ≡ true
      → IsInStep a
      → IsInStep (push_all floats around sdk buses es a).1
  unfolding push_all
  push_all-IsInStep [] a l s = s
  push_all-IsInStep (e ∷ es) a l s = push_all-IsInStep es _ l (event-IsInStep l a s e)
