-- ===== src/Vst3/Input.antt =====
-- `processInputEvents`: the events of the host as CLAP events. Floats are taken as the doubles that
-- they are equal to.
pub mod Playing
pub mod Due
pub mod Addressed
use wrac_plugin_template.Prelude.{
  ◌||◌, ◌&&◌, ◌+◌, ◌%◌, ◌^◌, not, u8, leb, ltb, ℕ, Bool, true, false, ◌==◌, List, [], ◌∷◌, ◌++◌,
  Option, none, some, if◌then◌else◌,
}
use wrac_plugin_template.Prelude.Int.{
  ℤ, pos, negsuc, is_negative, to_ℕ, to_u32, to_u8, eq_ℤ, minus_one,
}
use wrac_plugin_template.Prelude.Double.{Doubles}
use wrac_plugin_template.Vst3.ActiveNotes.{Note, ActiveNote, add_to_active_notes}
use wrac_plugin_template.Vst3.EventOrder.{EventList, push_back}

-- The ids of note expressions, those of the VST3 SDK and those of CLAP.
pub record ExpressionTypes : Type 0 where
  pub vst_volume : ℕ
  pub vst_pan : ℕ
  pub vst_tuning : ℕ
  pub vst_vibrato : ℕ
  pub vst_expression : ℕ
  pub vst_brightness : ℕ
  pub clap_volume : ℕ
  pub clap_pan : ℕ
  pub clap_tuning : ℕ
  pub clap_vibrato : ℕ
  pub clap_expression : ℕ
  pub clap_brightness : ℕ
  pub clap_pressure : ℕ

module _ (doubles : Doubles) (types : ExpressionTypes) where
  open doubles use {Double, lit, sub, mul, div, lt, trunc}

  -- The types of `Vst::Event` that are told apart. The fields are in the order of the SDK: channel,
  -- pitch, tuning, velocity and id of a note-on; channel, pitch, velocity and id of a note-off;
  -- channel, pitch, pressure and id; type, id and value of a note expression.
  pub data VstInputBody : Type 0 where
    on : ℤ → ℤ → Double → Double → ℤ → VstInputBody
    off : ℤ → ℤ → Double → ℤ → VstInputBody
    sys_ex_data : List ℕ → VstInputBody
    other_data : VstInputBody
    poly_pressure : ℤ → ℤ → Double → ℤ → VstInputBody
    expression_value : ℕ → ℤ → Double → VstInputBody
    other : VstInputBody

  pub record VstInput : Type 0 where
    pub sample_offset : ℤ
    pub is_live : Bool
    pub body : VstInputBody

  -- The fields of a note expression that the adapter may leave unset.
  pub record Voice : Type 0 where
    pub expression_id : ℕ
    pub port_index : ℤ
    pub key : ℤ
    pub channel : ℤ
    pub value : Double

  pub data ClapInputBody : Type 0 where
    note_on : Note → Double → ClapInputBody
    note_off : Note → Double → ClapInputBody
    note_expression : ℤ → Option Voice → ClapInputBody
    sys_ex : List ℕ → ClapInputBody
    midi : ℕ → ℕ → ℕ → ClapInputBody

  pub record ClapInput : Type 0 where
    pub time : ℕ
    pub is_live : Bool
    pub body : ClapInputBody

  pub record InputState : Type 0 where
    pub list : EventList ClapInput
    pub active_notes : List ActiveNote

  abbrev pub push : ℕ → Bool → ClapInputBody → InputState → InputState
  push time live body s = record s {
    list = push_back (record { time = time; is_live = live; body = body }) s.list;
  }

  abbrev pub note_of : ℤ → ℤ → ℤ → Note
  note_of channel pitch id = record {
    note_id = id;
    port_index = pos 0;
    channel = channel;
    key = pitch;
  }

  -- The tuning of a note-on is in cents.
  unfoldable pub process_note_on :
      (supports_tuning : Bool) → ℕ → Bool → ℤ → ℤ → Double → Double → ℤ → InputState → InputState
  process_note_on supports_tuning time live channel pitch tuning velocity id s =
      let note = note_of channel pitch id in
      let s' = push time live (note_on note velocity) s in
      let s'' = record s' { active_notes = add_to_active_notes note s'.active_notes } in
      if supports_tuning && (lt tuning (lit 0) || lt (lit 0) tuning)
      then push time live
          (note_expression id (
            some (record {
              expression_id = types.clap_tuning;
              port_index = pos 0;
              key = pitch;
              channel = channel;
              value = mul tuning (div (lit 1) (lit 100));
            })))
          s''
      else s''

  abbrev pub voice_of : ActiveNote → ℕ → Double → Voice
  voice_of i id value = record {
    expression_id = id;
    port_index = i.note.port_index;
    key = i.note.key;
    channel = i.note.channel;
    value = value;
  }

  -- The fields that the loop leaves: those of the last note with the id, if there is one.
  unfoldable pub last_voice : ℤ → Double → List ActiveNote → Option Voice → Option Voice
  last_voice id pressure [] voice = voice
  last_voice id pressure (i ∷ is) voice = last_voice id pressure is (
      if i.used && eq_ℤ i.note.note_id id
      then some (voice_of i types.clap_pressure pressure)
      else voice)

  -- The key of the first note with the id, or -1.
  unfoldable pub first_key : ℤ → List ActiveNote → ℤ
  first_key id [] = minus_one
  first_key id (i ∷ is) =
      let rest = first_key id is in if i.used && eq_ℤ i.note.note_id id then i.note.key else rest

  unfoldable pub process_poly_pressure :
      (supports_poly : Bool) → ℕ → Bool → ℤ → Double → ℤ → InputState → InputState
  process_poly_pressure supports_poly time live channel pressure id s =
      if supports_poly
      then push time live (note_expression id (last_voice id pressure s.active_notes none)) s
      else let key = first_key id s.active_notes in
        if is_negative key
        then s
        else push time false
            (midi (u8 (0xA0 + to_u8 channel)) (to_u8 key) (u8 (trunc (mul pressure (lit 127))))) s

  -- The switch on the type, with the value of a tuning scaled to semitones; `none` is `continue`.
  abbrev pub expression_of : ℕ → Double → Option (ℕ × Double)
  expression_of type_id value =
      if type_id == types.vst_volume
      then some (types.clap_volume, value)
      else if type_id == types.vst_pan
      then some (types.clap_pan, value)
      else if type_id == types.vst_tuning
      then some (types.clap_tuning, mul (mul (sub value (div (lit 1) (lit 2))) (lit 2)) (lit 120))
      else if type_id == types.vst_vibrato
      then some (types.clap_vibrato, value)
      else if type_id == types.vst_expression
      then some (types.clap_expression, value)
      else if type_id == types.vst_brightness
      then some (types.clap_brightness, value)
      else none

  -- The loop over the active notes.
  unfoldable pub process_expression :
      ℕ → Bool → ℕ → ℤ → Double → List ActiveNote → InputState → InputState
  process_expression time live type_id id value [] s = s
  process_expression time live type_id id value (i ∷ is) s =
      process_expression time live type_id id value is (
        if i.used && eq_ℤ i.note.note_id id
        then elim (expression_of type_id value) [
          | none ↦ s
          | some (expression, scaled) ↦
              push time live (note_expression id (some (voice_of i expression scaled))) s
        ]
        else s)

  -- One event of the loop, by its type.
  abbrev pub process_body :
      (supports_poly supports_tuning : Bool) → ℕ → Bool → VstInputBody → InputState → InputState
  process_body poly tuning time live (on channel pitch tune velocity id) s =
      process_note_on tuning time live channel pitch tune velocity id s
  process_body poly tuning time live (off channel pitch velocity id) s =
      push time live (note_off (note_of channel pitch id) velocity) s
  process_body poly tuning time live (sys_ex_data bytes) s = push time live (sys_ex bytes) s
  process_body poly tuning time live other_data s = s
  process_body poly tuning time live (poly_pressure channel pitch pressure id) s =
      process_poly_pressure poly time live channel pressure id s
  process_body poly tuning time live (expression_value type_id id value) s =
      process_expression time live type_id id value s.active_notes s
  process_body poly tuning time live other s = s

  unfoldable pub process_input_event :
      (supports_poly supports_tuning : Bool) → VstInput → InputState → InputState
  process_input_event poly tuning e s =
      process_body poly tuning (to_u32 e.sample_offset) e.is_live e.body s

  -- `none` is an event that `getEvent` fails to give.
  unfoldable pub process_input_events :
      (supports_poly supports_tuning : Bool) → List (Option VstInput) → InputState → InputState
  process_input_events poly tuning [] s = s
  process_input_events poly tuning (none ∷ es) s = process_input_events poly tuning es s
  process_input_events poly tuning (some e ∷ es) s =
      process_input_events poly tuning es (process_input_event poly tuning e s)
