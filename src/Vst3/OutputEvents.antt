-- ===== src/Vst3/OutputEvents.antt =====
-- `enqueueOutputEvent`: what the adapter does with an event that the plugin gives out.
pub mod Gestures
pub mod Playable
use wrac_plugin_template.Prelude.{
  ◌||◌, ◌&&◌, ◌+◌, not, bit_and, leb, ltb, ℕ, Bool, true, false, ◌==◌, List, [], ◌∷◌, ◌++◌, Option,
  none, some, if◌then◌else◌,
}
use wrac_plugin_template.Prelude.Int.{ℤ, pos, negsuc, is_negative, to_ℕ}
use wrac_plugin_template.Vst3.ActiveNotes.{Note, ActiveNote, remove_from_active_notes}
use wrac_plugin_template.Vst3.Output.{
  Floats, Header, VstEvent, create_note_on_output_event, create_note_off_output_event,
  output_bus_index, push_vst_output_event,
}
use wrac_plugin_template.Vst3.Midi1.{Controllers, MidiEvent, enqueue_midi1_output_event}
use wrac_plugin_template.Vst3.SysEx.{SysexEvent, SysexOutput, enqueue_sysex_output_event}

-- `std::find` and `std::remove` with `erase`, on `_gesturedParameters`.
abbrev pub contains : ℕ → List ℕ → Bool
contains id [] = false
contains id (x ∷ xs) = x == id || contains id xs

abbrev pub removed : ℕ → List ℕ → List ℕ
removed id [] = []
removed id (x ∷ xs) = if x == id then removed id xs else x ∷ removed id xs

-- What the adapter stands in: the CLAP core event space, the host's tables, and doubles as values.
pub record Surroundings (floats : Floats) : Type 1 where
  pub core_space : ℕ
  pub Value : Type 0
  pub to_float : Value → floats.Float
  -- `parameters->getParameter(id)` gives the id of the parameter that it finds.
  pub get_parameter : ℕ → Option ℕ
  pub as_vst3_value : ℕ → Value → Value
  -- `_automation` is not null
  pub has_automation : Bool
  pub add_event : List (VstEvent floats) → VstEvent floats → Bool

module _ (floats : Floats) (around : Surroundings floats) (sdk : Controllers)
    (bus_by_port : List ℤ) where
  open around use {
    core_space, Value, to_float, get_parameter, as_vst3_value, has_automation, add_event,
  }

  pub record NoteEvent : Type 0 where
    pub note : Note
    pub velocity : Value

  -- The types of CLAP events that are told apart; `other` is every other type.
  pub data Kind : Type 0 where
    note_on_event : NoteEvent → Kind
    note_off_event : NoteEvent → Kind
    note_end : Note → Kind
    note_choke : Note → Kind
    note_expression : Kind
    param_value : ℕ → Value → Kind
    param_mod : Kind
    gesture_begin : ℕ → Kind
    gesture_end : ℕ → Kind
    midi : ℤ → ℕ → ℕ → ℕ → Kind
    midi_sysex : ℤ → Option (List ℕ) → Kind
    midi2 : Kind
    other : Kind

  pub record ClapEvent : Type 0 where
    pub header : Header
    pub kind : Kind

  -- The calls of `IAutomation`, the last one first.
  pub data Edit : Type 0 where
    begin_edit : ℕ → Edit
    perform_edit : ℕ → Value → Edit
    end_edit : ℕ → Edit

  pub record Point : Type 0 where
    pub id : ℕ
    pub offset : ℕ
    pub value : Value

  -- `output_changes` is `none` where `_vstdata` or its `outputParameterChanges` is null, and else says
  -- of which parameters `addParameterData` gives a queue; `queue` are the `outputEvents`.
  pub record Adapter : Type 0 where
    pub gestured : List ℕ
    pub edits : List Edit
    pub points : List Point
    pub active_notes : List ActiveNote
    pub sysex : SysexOutput
    pub output_changes : Option (ℕ → Bool)
    pub queue : Option (List (VstEvent floats))

  abbrev pub notify : Edit → Adapter → Adapter
  notify e a = if has_automation then record a { edits = e ∷ a.edits } else a

  abbrev pub parameter_of : ℕ → Option ℕ
  parameter_of id = get_parameter (bit_and id 0x7FFFFFFF)

  abbrev pub is_out_of_range : ℤ → Note → Bool
  is_out_of_range bus n =
      is_negative bus
      || is_negative n.channel
      || ltb 15 (to_ℕ n.channel)
      || is_negative n.key
      || ltb 127 (to_ℕ n.key)

  pub enqueue_note :
      (Header → ℤ → ℤ → ℤ → floats.Float → ℤ → VstEvent floats)
      → Header
      → NoteEvent
      → Adapter
      → Bool × Adapter
  enqueue_note create header n a =
      let bus = output_bus_index bus_by_port n.note.port_index in
      if is_out_of_range bus n.note
      then (false, a)
      else let output =
          create header bus n.note.channel n.note.key (to_float n.velocity) n.note.note_id in
        let (pushed, queue) = push_vst_output_event floats add_event output a.queue in
        (pushed, record a { queue = queue })

  abbrev pub has_queue : Option (ℕ → Bool) → ℕ → Bool
  has_queue none id = false
  has_queue (some gives) id = gives id

  -- `onPerformEdit` while the parameter is edited, and a point for the host.
  unfoldable pub enqueue_param_value : Header → ℕ → Value → Adapter → Adapter
  enqueue_param_value header param_id value a = elim (parameter_of param_id) [
    | none ↦ a
    | some id ↦
        let a' = if contains id a.gestured then notify (perform_edit id value) a else a in
        if has_queue a.output_changes id
        then record a' {
          points =
              a'.points
              ++ record { id = id; offset = header.time; value = as_vst3_value id value } ∷ [];
        }
        else a'
  ]

  pub enqueue_gesture_begin : ℕ → Adapter → Adapter
  enqueue_gesture_begin param_id a = elim (parameter_of param_id) [
    | none ↦ a
    | some id ↦ notify (begin_edit id) (record a { gestured = a.gestured ++ id ∷ [] })
  ]

  pub enqueue_gesture_end : ℕ → Adapter → Adapter
  enqueue_gesture_end param_id a = elim (parameter_of param_id) [
    | none ↦ a
    | some id ↦
        if contains id a.gestured
        then notify (end_edit id) (record a { gestured = removed id a.gestured })
        else a
  ]

  abbrev pub enqueue_midi : Header → ℤ → ℕ → ℕ → ℕ → Adapter → Bool × Adapter
  enqueue_midi header port data0 data1 data2 a =
      let event : MidiEvent = record {
        header = header;
        port_index = port;
        data0 = data0;
        data1 = data1;
        data2 = data2;
      } in
      let (pushed, queue) =
        enqueue_midi1_output_event floats sdk add_event bus_by_port event a.queue in
      (pushed, record a { queue = queue })

  abbrev pub enqueue_sysex : Header → ℤ → Option (List ℕ) → Adapter → Bool × Adapter
  enqueue_sysex header port buffer a =
      let event : SysexEvent = record { header = header; port_index = port; buffer = buffer } in
      let (pushed, sysex, queue) =
        enqueue_sysex_output_event floats add_event bus_by_port event a.sysex a.queue in
      (pushed, record a { sysex = sysex; queue = queue })

  abbrev pub enqueue_kind : Header → Kind → Adapter → Bool × Adapter
  enqueue_kind header (note_on_event n) a =
      enqueue_note (create_note_on_output_event floats) header n a
  enqueue_kind header (note_off_event n) a =
      enqueue_note (create_note_off_output_event floats) header n a
  enqueue_kind header (note_end n) a =
      (true, record a { active_notes = remove_from_active_notes n a.active_notes })
  enqueue_kind header (note_choke n) a =
      (true, record a { active_notes = remove_from_active_notes n a.active_notes })
  enqueue_kind header note_expression a = (true, a)
  enqueue_kind header (param_value id value) a = (true, enqueue_param_value header id value a)
  enqueue_kind header param_mod a = (true, a)
  enqueue_kind header (gesture_begin id) a = (true, enqueue_gesture_begin id a)
  enqueue_kind header (gesture_end id) a = (true, enqueue_gesture_end id a)
  enqueue_kind header (midi port data0 data1 data2) a = enqueue_midi header port data0 data1 data2 a
  enqueue_kind header (midi_sysex port buffer) a = enqueue_sysex header port buffer a
  enqueue_kind header midi2 a = (false, a)
  enqueue_kind header other a = (false, a)

  unfoldable pub enqueue_output_event : ClapEvent → Adapter → Bool × Adapter
  enqueue_output_event event a =
      if event.header.space_id == core_space
      then enqueue_kind event.header event.kind a
      else (false, a)

  -- The events that the plugin gives out in one block, with what each call returns.
  unfoldable pub push_all : List ClapEvent → Adapter → List Bool × Adapter
  push_all [] a = ([], a)
  push_all (e ∷ es) a =
      let (pushed, a') = enqueue_output_event e a in
      let (replies, last) = push_all es a' in (pushed ∷ replies, last)
