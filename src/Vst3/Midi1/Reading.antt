-- ===== src/Vst3/Midi1/Reading.antt =====
-- What a host that reads the events back as MIDI 1.0 gets.
use wrac_plugin_template.Prelude.{
  ◌||◌, ◌&&◌, not, ◌+◌, ◌-◌, ◌<◌, ℕ, Bool, true, ltb, leb, ◌==◌, List, [], ◌∷◌, ◌≡◌, Option, none,
  some, if◌then◌else◌,
}
use wrac_plugin_template.Prelude.Int.{ℤ, is_negative, to_ℕ}
use wrac_plugin_template.Vst3.Output.{
  clamp_unit, output_bus_index, Floats, Body, note_on, note_off, legacy_midi_cc_out, midi_sys_ex,
  VstEvent,
}
use wrac_plugin_template.Vst3.Midi1.{Controllers, MidiEvent}

-- The data bytes that a status takes; 3 for a status that starts no message that is forwarded.
abbrev pub data_bytes : ℕ → ℕ
data_bytes status =
    if ltb status 0x80
    then 3
    else if ltb status 0xC0 || (leb 0xE0 status && ltb status 0xF0) || status == 0xF2
    then 2
    else if ltb status 0xE0 || status == 0xF1 || status == 0xF3
    then 1
    else if status == 0xF6 || status == 0xFA || status == 0xFB || status == 0xFC || status == 0xFE
    then 0
    else 3

-- A message that is forwarded: each data byte that its status takes is one.
abbrev pub is_forwarded : MidiEvent → Bool
is_forwarded e =
    let n = data_bytes e.data0 in
    ltb n 3 && (n == 0 || ltb e.data1 128) && (ltb n 2 || ltb e.data2 128)

-- The message with 0 for the data bytes that it does not take, and a note-on without velocity as
-- the note-off that it means.
abbrev pub canonical : MidiEvent → List ℕ
canonical e =
    let n = data_bytes e.data0 in
    (if leb 0x90 e.data0 && ltb e.data0 0xA0 && e.data2 == 0 then e.data0 - 0x10 else e.data0)
    ∷ (if n == 0 then 0 else e.data1)
    ∷ (if ltb n 2 then 0 else e.data2)
    ∷ []

-- The SDK numbers these controllers above those of MIDI, in this order.
pub record InOrder (sdk : Controllers) : Type 0 where
  pub after_touch : 127 < sdk.after_touch
  pub pitch_bend : sdk.after_touch < sdk.pitch_bend
  pub program_change : sdk.pitch_bend < sdk.program_change
  pub poly_pressure : sdk.program_change < sdk.poly_pressure
  pub quarter_frame : sdk.poly_pressure < sdk.quarter_frame
  pub song_select : sdk.quarter_frame < sdk.song_select
  pub song_pointer : sdk.song_select < sdk.song_pointer
  pub tune_request : sdk.song_pointer < sdk.tune_request
  pub clock_start : sdk.tune_request < sdk.clock_start
  pub clock_continue : sdk.clock_start < sdk.clock_continue
  pub clock_stop : sdk.clock_continue < sdk.clock_stop
  pub active_sensing : sdk.clock_stop < sdk.active_sensing

-- `velocity` reads a velocity back as a number up to 127.
module _ (floats : Floats) (sdk : Controllers) (velocity : floats.Float → ℕ) where
  open floats use {lit, div}

  abbrev pub midi_bytes : Body floats → List ℕ
  midi_bytes (note_on channel key v id) = (0x90 + to_ℕ channel) ∷ to_ℕ key ∷ velocity v ∷ []
  midi_bytes (note_off channel key v id) = (0x80 + to_ℕ channel) ∷ to_ℕ key ∷ velocity v ∷ []
  midi_bytes (midi_sys_ex at size) = []
  midi_bytes (legacy_midi_cc_out channel number value value2) =
      let v = to_ℕ value in
      let v2 = to_ℕ value2 in
      if ltb number 128
      then (0xB0 + to_ℕ channel) ∷ number ∷ v ∷ []
      else if number == sdk.poly_pressure
      then (0xA0 + to_ℕ channel) ∷ v ∷ v2 ∷ []
      else if number == sdk.program_change
      then (0xC0 + to_ℕ channel) ∷ v ∷ v2 ∷ []
      else if number == sdk.after_touch
      then (0xD0 + to_ℕ channel) ∷ v ∷ v2 ∷ []
      else if number == sdk.pitch_bend
      then (0xE0 + to_ℕ channel) ∷ v ∷ v2 ∷ []
      else if number == sdk.quarter_frame
      then 0xF1 ∷ v ∷ v2 ∷ []
      else if number == sdk.song_pointer
      then 0xF2 ∷ v ∷ v2 ∷ []
      else if number == sdk.song_select
      then 0xF3 ∷ v ∷ v2 ∷ []
      else if number == sdk.tune_request
      then 0xF6 ∷ v ∷ v2 ∷ []
      else if number == sdk.clock_start
      then 0xFA ∷ v ∷ v2 ∷ []
      else if number == sdk.clock_continue
      then 0xFB ∷ v ∷ v2 ∷ []
      else if number == sdk.clock_stop
      then 0xFC ∷ v ∷ v2 ∷ []
      else if number == sdk.active_sensing
      then 0xFE ∷ v ∷ v2 ∷ []
      else []

  -- Nothing, for a port without a bus or a message that is not forwarded; else an event for the bus
  -- of the port that reads back as the message.
  abbrev pub Reads : List ℤ → MidiEvent → Option (VstEvent floats) → Type 0
  Reads bus_by_port e none =
      (is_negative (output_bus_index bus_by_port e.port_index) || not (is_forwarded e)) ≡ true
  Reads bus_by_port e (some output) =
      ((not (is_negative (output_bus_index bus_by_port e.port_index)) && is_forwarded e) ≡ true)
      × (output.bus_index ≡ output_bus_index bus_by_port e.port_index)
      × (output.sample_offset ≡ e.header.time)
      × (midi_bytes output.body ≡ canonical e)

  abbrev pub ReadsVelocity : Type 0
  ReadsVelocity = (n : ℕ) → n < 128 → velocity (clamp_unit floats (div (lit n) (lit 127))) ≡ n
