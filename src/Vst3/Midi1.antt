-- ===== src/Vst3/Midi1.antt =====
-- `enqueueMidi1OutputEvent`: a MIDI 1.0 message as an event of the host.
pub mod Reading
pub mod Forward
use wrac_plugin_template.Prelude.{
  ◌||◌, ◌&&◌, not, bit_and, ◌+◌, ◌-◌, ◌<◌, ◌≢◌, ℕ, Bool, true, false, ltb, leb, ◌==◌, List, [], ◌∷◌,
  ◌≡◌, refl, arith, Option, none, some, if◌then◌else◌,
}
use wrac_plugin_template.Prelude.Int.{ℤ, pos, minus_one, is_negative, i8}
use wrac_plugin_template.Vst3.Output.{
  Floats, Header, Body, note_on, note_off, legacy_midi_cc_out, midi_sys_ex, VstEvent,
  create_legacy_midi_output_event, create_note_on_output_event, create_note_off_output_event,
  is_midi_data_byte, output_bus_index, push_vst_output_event,
}

-- The controller numbers of the VST3 SDK that stand for messages other than control changes.
pub record Controllers : Type 0 where
  pub after_touch : ℕ
  pub pitch_bend : ℕ
  pub program_change : ℕ
  pub poly_pressure : ℕ
  pub quarter_frame : ℕ
  pub song_select : ℕ
  pub song_pointer : ℕ
  pub tune_request : ℕ
  pub clock_start : ℕ
  pub clock_continue : ℕ
  pub clock_stop : ℕ
  pub active_sensing : ℕ

-- `clap_event_midi_t`
pub record MidiEvent : Type 0 where
  pub header : Header
  pub port_index : ℤ
  pub data0 : ℕ
  pub data1 : ℕ
  pub data2 : ℕ

module _ (floats : Floats) (sdk : Controllers) where
  open floats use {lit, div}

  -- The messages below 0xf0; `none` is `return false` before any push.
  unfoldable pub channel_output : ℤ → MidiEvent → Option (VstEvent floats)
  channel_output bus event =
      let message = bit_and event.data0 0xf0 in
      let channel = pos (bit_and event.data0 0x0f) in
      let velocity = div (lit event.data2) (lit 127) in
      let legacy = create_legacy_midi_output_event floats event.header bus channel in
      let data1 = i8 event.data1 in
      let data2 = i8 event.data2 in
      if not (is_midi_data_byte event.data1)
      then none
      else if not (message == 0xc0) && not (message == 0xd0) && not (is_midi_data_byte event.data2)
      then none
      else if message == 0x80 || message == 0x90
      then if message == 0x80 || event.data2 == 0
        then some (
            create_note_off_output_event floats event.header bus channel (pos event.data1) velocity
              minus_one)
        else some (
            create_note_on_output_event floats event.header bus channel (pos event.data1) velocity
              minus_one)
      else if message == 0xa0
      then some (legacy sdk.poly_pressure data1 data2)
      else if message == 0xb0
      then some (legacy event.data1 data2 (pos 0))
      else if message == 0xc0
      then some (legacy sdk.program_change data1 (pos 0))
      else if message == 0xd0
      then some (legacy sdk.after_touch data1 (pos 0))
      else if message == 0xe0
      then some (legacy sdk.pitch_bend data1 data2)
      else none

  -- The system messages.
  unfoldable pub system_output : ℤ → MidiEvent → Option (VstEvent floats)
  system_output bus event =
      let status = event.data0 in
      let ok1 = is_midi_data_byte event.data1 in
      let ok2 = is_midi_data_byte event.data2 in
      let system = create_legacy_midi_output_event floats event.header bus (pos 0) in
      if status == 0xf1
      then if ok1 then some (system sdk.quarter_frame (i8 event.data1) (pos 0)) else none
      else if status == 0xf2
      then if ok1 && ok2
        then some (system sdk.song_pointer (i8 event.data1) (i8 event.data2))
        else none
      else if status == 0xf3
      then if ok1 then some (system sdk.song_select (i8 event.data1) (pos 0)) else none
      else if status == 0xf6
      then some (system sdk.tune_request (pos 0) (pos 0))
      else if status == 0xfa
      then some (system sdk.clock_start (pos 0) (pos 0))
      else if status == 0xfb
      then some (system sdk.clock_continue (pos 0) (pos 0))
      else if status == 0xfc
      then some (system sdk.clock_stop (pos 0) (pos 0))
      else if status == 0xfe
      then some (system sdk.active_sensing (pos 0) (pos 0))
      else none

  unfoldable pub midi1_output : List ℤ → MidiEvent → Option (VstEvent floats)
  unfolding channel_output system_output
  midi1_output bus_by_port event =
      let bus = output_bus_index bus_by_port event.port_index in
      if is_negative bus
      then none
      else if ltb event.data0 0xf0
      then channel_output bus event
      else system_output bus event

  unfoldable pub enqueue_midi1_output_event :
      (List (VstEvent floats) → VstEvent floats → Bool)
      → List ℤ
      → MidiEvent
      → Option (List (VstEvent floats))
      → Bool × Option (List (VstEvent floats))
  enqueue_midi1_output_event add_event bus_by_port event queue =
      elim (midi1_output bus_by_port event) [
        | none ↦ (false, queue)
        | some output ↦ push_vst_output_event floats add_event output queue
      ]
