-- ===== src/Vst3/Input/Addressed.antt =====
-- The note expressions and the key pressures that the plugin gets are of notes that play.
use wrac_plugin_template.Prelude.{
  ==_refl, inr, inl, length, Bool-cases, Option-cases, ◌≡◌, refl, ap, ◌∙◌, ◌||◌, ◌&&◌, ◌+◌, ◌≤◌, ℕ,
  Bool, true, false, ◌==◌, List, [], ◌∷◌, ◌++◌, Option, none, some, arith,
}
use wrac_plugin_template.Prelude.Int.{to_u32, ℤ, is_negative, to_u8, eq_ℤ, eq_ℤ_refl}
use wrac_plugin_template.Prelude.Double.{Doubles}
use wrac_plugin_template.Vst3.ActiveNotes.{Note, ActiveNote, add_to_active_notes}
use wrac_plugin_template.Vst3.EventOrder.Stable.{from, from-push}
use wrac_plugin_template.Vst3.Input.{
  voice_of, other_data, other, expression_value, poly_pressure, sys_ex_data, off, on, process_body,
  VstInputBody, note_expression, midi, sys_ex, note_off, note_on, ExpressionTypes, VstInput, Voice,
  ClapInput, ClapInputBody, InputState, push, note_of, process_note_on, last_voice, first_key,
  process_poly_pressure, expression_of, process_expression, process_input_event,
  process_input_events,
}
use wrac_plugin_template.Vst3.Input.Playing.{
  eq_Note, eq_ℤ_sym, eq_Note_refl, plays, plays-add, is_named, are_named, body-heard,
}
use wrac_plugin_template.Vst3.Input.Due.{all_due, events-due}

module _ (doubles : Doubles) (types : ExpressionTypes) where
  -- A note expression is of a note that plays, or else it is missed: the adapter leaves its fields
  -- unset. A key pressure has the key of a note that plays.
  abbrev pub addressed : (missed : Bool) → List ActiveNote → ClapInputBody doubles types → Bool
  addressed missed slots (note_on n v) = plays (eq_Note n) slots
  addressed missed slots (note_off n v) = true
  addressed missed slots (sys_ex bytes) = true
  addressed missed slots (midi d0 d1 d2) = plays (λ n. to_u8 n.key == d1) slots
  addressed missed slots (note_expression id none) = missed
  addressed missed slots (note_expression id (some v)) =
      plays
        (eq_Note
          (record { note_id = id; port_index = v.port_index; channel = v.channel; key = v.key }))
        slots

  abbrev pub AllAddressed :
      (missed : Bool) → List ActiveNote → List (ClapInput doubles types) → Type 0
  AllAddressed missed slots [] = Unit
  AllAddressed missed slots (e ∷ es) =
      (addressed missed slots e.body ≡ true) × AllAddressed missed slots es

  -- Every event is addressed, and the indices are those of the events in order.
  pub record IsInput (missed : Bool) (s : InputState doubles types) : Type 0 where
    pub events : AllAddressed missed s.active_notes s.list.events
    pub indices : s.list.indices ≡ from 0 (length s.list.events)

  AllAddressed-append :
      (missed : Bool) (slots : List ActiveNote) (es : List (ClapInput doubles types))
      (e : ClapInput doubles types)
      → AllAddressed missed slots es
      → addressed missed slots e.body ≡ true
      → AllAddressed missed slots (es ++ e ∷ [])
  AllAddressed-append missed slots [] e a h = (h, _)
  AllAddressed-append missed slots (x ∷ xs) e a h =
      (a.0, AllAddressed-append missed slots xs e a.1 h)

  push-IsInput :
      (missed : Bool) (time : ℕ) (live : Bool) (b : ClapInputBody doubles types)
      (s : InputState doubles types)
      → addressed missed s.active_notes b ≡ true
      → IsInput missed s
      → IsInput missed (push doubles types time live b s)
  push-IsInput missed time live b s h v = record {
    events = AllAddressed-append missed s.active_notes s.list.events _ v.events h;
    indices = ap (λ i. i ++ length s.list.events ∷ []) v.indices ∙ from-push s.list.events _;
  }

  addressed-add :
      (missed : Bool) (n : Note) (slots : List ActiveNote) (b : ClapInputBody doubles types)
      → addressed missed slots b ≡ true
      → addressed missed (add_to_active_notes n slots) b ≡ true
  addressed-add missed n slots (note_on m v) h = ground (arith, plays-add (eq_Note m) n slots)
  addressed-add missed n slots (note_off m v) h = h
  addressed-add missed n slots (sys_ex bytes) h = h
  addressed-add missed n slots (midi d0 d1 d2) h =
      ground (arith, plays-add (λ n. to_u8 n.key == d1) n slots)
  addressed-add missed n slots (note_expression id none) h = h
  addressed-add missed n slots (note_expression id (some v)) h = ground (
    arith,
    plays-add
        (eq_Note
          (record { note_id = id; port_index = v.port_index; channel = v.channel; key = v.key }))
        n slots,
  )

  AllAddressed-add :
      (missed : Bool) (n : Note) (slots : List ActiveNote) (es : List (ClapInput doubles types))
      → AllAddressed missed slots es
      → AllAddressed missed (add_to_active_notes n slots) es
  AllAddressed-add missed n slots [] a = a
  AllAddressed-add missed n slots (e ∷ es) a =
      (addressed-add missed n slots e.body a.0, AllAddressed-add missed n slots es a.1)

  note_on-IsInput :
      (missed : Bool) (tuned : Bool) (time : ℕ) (live : Bool) (channel pitch : ℤ)
      (tuning velocity : doubles.Double) (id : ℤ) (s : InputState doubles types)
      → IsInput missed s
      → IsInput missed
          (process_note_on doubles types tuned time live channel pitch tuning velocity id s)
  unfolding process_note_on
  note_on-IsInput missed tuned time live channel pitch tuning velocity id s v =
      elim (Bool-cases
        (tuned && (doubles.lt tuning (doubles.lit 0) || doubles.lt (doubles.lit 0) tuning))) [
          | inl c ↦ rw c (push-IsInput missed time live _ _ playing pushed)
          | inr c ↦ rw c pushed
        ]
    where
      note : Note
      note = note_of doubles types channel pitch id

      playing : plays (eq_Note note) (add_to_active_notes note s.active_notes) ≡ true
      playing = ground (arith, plays-add (eq_Note note) note s.active_notes, eq_Note_refl note)

      pushed : IsInput missed (
          push doubles types time live
            (note_on note velocity)
            (record s { active_notes = add_to_active_notes note s.active_notes }))
      pushed = push-IsInput missed time live (note_on note velocity) _ playing (record {
        events = AllAddressed-add missed note s.active_notes s.list.events v.events;
        indices = v.indices;
      })

  voice-plays :
      (i : ActiveNote) (is : List ActiveNote) (id : ℤ)
      → (i.used && eq_ℤ i.note.note_id id) ≡ true
      → plays
          (eq_Note (record {
            note_id = id;
            port_index = i.note.port_index;
            channel = i.note.channel;
            key = i.note.key;
          }))
          (i ∷ is)
        ≡ true
  voice-plays i is id c = ground (
    arith,
    eq_ℤ_sym i.note.note_id id,
    eq_ℤ_refl i.note.port_index,
    eq_ℤ_refl i.note.channel,
    eq_ℤ_refl i.note.key,
  )

  -- A test that a slot of the table passes is passed by a note that plays.
  last_voice-addressed :
      (missed : Bool) (all : List ActiveNote) (id : ℤ) (pressure : doubles.Double)
      (is : List ActiveNote) (voice : Option (Voice doubles types))
      → ((test : Note → Bool) → plays test is ≡ true → plays test all ≡ true)
      → (addressed missed all (note_expression id voice) || plays (λ n. eq_ℤ n.note_id id) is)
        ≡ true
      → addressed missed all (note_expression id (last_voice doubles types id pressure is voice))
        ≡ true
  unfolding last_voice
  last_voice-addressed missed all id pressure [] voice sub h = ground (arith, h)
  last_voice-addressed missed all id pressure (i ∷ is) voice sub h =
      last_voice-addressed missed all id pressure is _ (λ test p. sub test (ground arith))
        (elim (Bool-cases (i.used && eq_ℤ i.note.note_id id)) [
          | inl c ↦
              let found : addressed missed all (
                    note_expression id
                      (some (voice_of doubles types i types.clap_pressure pressure)))
                  ≡ true =
                sub _ (voice-plays i is id c) in
              rw c (ground (arith, found))
          | inr c ↦ rw c (ground (arith, h, c))
        ])

  first_key-plays :
      (id k : ℤ) (slots : List ActiveNote)
      → first_key doubles types id slots ≡ k
      → is_negative k ≡ false
      → plays (λ n. to_u8 n.key == to_u8 k) slots ≡ true
  unfolding first_key
  first_key-plays id k [] e h = absurd (ground (arith, ap is_negative e))
  first_key-plays id k (i ∷ is) e h = elim (Bool-cases (i.used && eq_ℤ i.note.note_id id)) [
    | inl c ↦
        let used : i.used ≡ true = ground arith in
        let key : i.note.key ≡ k = rw c at e in rw (used, key) (ground (arith, ==_refl (to_u8 k)))
    | inr c ↦
        let rest : first_key doubles types id is ≡ k = rw c at e in
        ground (arith, first_key-plays id k is rest h)
  ]

  poly_pressure-IsInput :
      (missed : Bool) (poly : Bool) (time : ℕ) (live : Bool) (channel : ℤ)
      (pressure : doubles.Double) (id : ℤ) (s : InputState doubles types)
      → (missed || plays (λ n. eq_ℤ n.note_id id) s.active_notes) ≡ true
      → IsInput missed s
      → IsInput missed (process_poly_pressure doubles types poly time live channel pressure id s)
  unfolding process_poly_pressure
  poly_pressure-IsInput missed true time live channel pressure id s h v =
      push-IsInput missed time live _ s
        (last_voice-addressed missed s.active_notes id pressure s.active_notes none (λ test p. p) h)
        v
  poly_pressure-IsInput missed false time live channel pressure id s h v =
      elim (Bool-cases (is_negative (first_key doubles types id s.active_notes))) [
        | inl c ↦ rw c v
        | inr c ↦
            rw c (push-IsInput missed time false _ s (first_key-plays id _ s.active_notes refl c) v)
      ]

  expression-IsInput :
      (missed : Bool) (time : ℕ) (live : Bool) (type_id : ℕ) (id : ℤ) (value : doubles.Double)
      (is : List ActiveNote) (s : InputState doubles types)
      → ((test : Note → Bool) → plays test is ≡ true → plays test s.active_notes ≡ true)
      → IsInput missed s
      → IsInput missed (process_expression doubles types time live type_id id value is s)
  unfolding process_expression
  expression-IsInput missed time live type_id id value [] s sub v = v
  expression-IsInput missed time live type_id id value (i ∷ is) s sub v =
      elim (Bool-cases (i.used && eq_ℤ i.note.note_id id)) [
        | inr c ↦ rw c (
            expression-IsInput missed time live type_id id value is s
              (λ test p. sub test (ground arith)) v)
        | inl c ↦ elim (Option-cases (expression_of doubles types type_id value)) [
          | inl d ↦
              rw (c, d)
                (expression-IsInput missed time live type_id id value is s
                  (λ test p. sub test (ground arith)) v)
          | inr (x, d) ↦
              rw (c, d)
                (expression-IsInput missed time live type_id id value is _
                  (λ test p. sub test (ground arith))
                  (push-IsInput missed time live _ s (sub _ (voice-plays i is id c)) v))
        ]
      ]

  body-IsInput :
      (missed poly tuned : Bool) (time : ℕ) (live : Bool) (b : VstInputBody doubles types)
      (s : InputState doubles types)
      → (missed || is_named doubles types s.active_notes b) ≡ true
      → IsInput missed s
      → IsInput missed (process_body doubles types poly tuned time live b s)
  body-IsInput missed poly tuned time live (on channel pitch tuning velocity id) s h v =
      note_on-IsInput missed tuned time live channel pitch tuning velocity id s v
  body-IsInput missed poly tuned time live (off channel pitch velocity id) s h v =
      push-IsInput missed time live _ s refl v
  body-IsInput missed poly tuned time live (sys_ex_data bytes) s h v =
      push-IsInput missed time live _ s refl v
  body-IsInput missed poly tuned time live other_data s h v = v
  body-IsInput missed poly tuned time live (poly_pressure channel pitch pressure id) s h v =
      poly_pressure-IsInput missed poly time live channel pressure id s (ground (arith, h)) v
  body-IsInput missed poly tuned time live (expression_value type_id id value) s h v =
      expression-IsInput missed time live type_id id value s.active_notes s (λ test p. p) v
  body-IsInput missed poly tuned time live other s h v = v

  -- With or without events that name no note that plays.
  pub events-IsInput :
      (missed poly tuned : Bool) (es : List (Option (VstInput doubles types)))
      (s : InputState doubles types)
      → (missed || are_named doubles types es s.active_notes) ≡ true
      → IsInput missed s
      → IsInput missed (process_input_events doubles types poly tuned es s)
  unfolding process_input_events process_input_event
  events-IsInput missed poly tuned [] s h v = v
  events-IsInput missed poly tuned (none ∷ es) s h v = events-IsInput missed poly tuned es s h v
  events-IsInput missed poly tuned (some e ∷ es) s h v =
      events-IsInput missed poly tuned es _
        (rw (body-heard doubles types poly tuned (to_u32 e.sample_offset) e.is_live e.body s)
          (ground (arith, h)))
        (body-IsInput missed poly tuned (to_u32 e.sample_offset) e.is_live e.body s
          (ground (arith, h)) v)

  -- If each poly pressure and each expression of the host is of a note that plays when it comes, and
  -- the notes of a poly pressure have keys, then the note expressions and the key pressures for the
  -- plugin are of notes that play, each with its fields set, the indices are those of the events in
  -- order, and there is an event for each note-on, note-off, system exclusive message and poly
  -- pressure and for each expression of a type that CLAP has.
  pub process_input_events-IsInput :
      (poly tuned : Bool) (es : List (Option (VstInput doubles types)))
      (s : InputState doubles types)
      → are_named doubles types es s.active_notes ≡ true
      → IsInput false s
      → IsInput false (process_input_events doubles types poly tuned es s)
        × (length s.list.events + all_due doubles types es
            ≤ length (process_input_events doubles types poly tuned es s).list.events)
  process_input_events-IsInput poly tuned es s h v =
      (events-IsInput false poly tuned es s h v, events-due doubles types poly tuned es s h)
