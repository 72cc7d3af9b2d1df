-- ===== src/Vst3/Tests.antt =====
-- Examples of the process adapter.
use mathlib.Core.List.{Perm}
use wrac_plugin_template.Prelude.{
  length-replicate, ℕ, ◌≡◌, ◌/◌, ◌*◌, suc, List, [], ◌∷◌, ◌++◌, some, true, false, Bool, ltb, arith,
  length, max, replicate,
}
use wrac_plugin_template.Prelude.Int.{ℤ, pos, minus_one}
use wrac_plugin_template.Vst3.ActiveNotes.{
  Note, ActiveNote, add_to_active_notes, remove_from_active_notes, playing, without,
  add_to_active_notes_lem, remove_from_active_notes_lem,
}
use wrac_plugin_template.Vst3.Output.{Floats, Header, VstEvent}
use wrac_plugin_template.Vst3.Midi1.{Controllers, MidiEvent, midi1_output}
use wrac_plugin_template.Vst3.Midi1.Reading.{InOrder, Reads}
use wrac_plugin_template.Vst3.Midi1.Forward.{midi1_output-Reads}
use wrac_plugin_template.Vst3.SysEx.{SysexEvent, SysexOutput, enqueue_all}
use wrac_plugin_template.Vst3.SysEx.Storage.{IsStored, payloads, held, enqueue_all-IsStored}

abbrev low_note : Note
low_note = record { note_id = pos 7; port_index = pos 0; channel = pos 1; key = pos 36 }

abbrev high_note : Note
high_note = record { note_id = pos 8; port_index = pos 0; channel = pos 1; key = pos 84 }

abbrev slots : List ActiveNote
slots = record { used = true; note = low_note } ∷ record { used = false; note = low_note } ∷ []

add_to_active_notes_lem_example :
    Perm (playing (add_to_active_notes high_note slots)) (high_note ∷ playing slots)
    × (length (add_to_active_notes high_note slots)
        ≡ max (length slots) (suc (length (playing slots))))
add_to_active_notes_lem_example = add_to_active_notes_lem high_note slots

remove_from_active_notes_lem_example :
    (playing (remove_from_active_notes low_note slots) ≡ without low_note (playing slots))
    × (length (remove_from_active_notes low_note slots) ≡ length slots)
remove_from_active_notes_lem_example = remove_from_active_notes_lem low_note slots

abbrev time_of_test : ℕ → ℕ
time_of_test e = e / 10

abbrev arrivals : List ℕ
arrivals = 51 ∷ 23 ∷ 52 ∷ 10 ∷ 21 ∷ []

-- Fractions of 127.
abbrev steps : Floats
steps = record { Float = ℕ; lit = λ n. n * 127; div = λ a b. a * 127 / b; lt = ltb }

abbrev sdk : Controllers
sdk = record {
  after_touch = 128;
  pitch_bend = 129;
  program_change = 130;
  poly_pressure = 131;
  quarter_frame = 132;
  song_select = 133;
  song_pointer = 134;
  tune_request = 136;
  clock_start = 137;
  clock_continue = 138;
  clock_stop = 139;
  active_sensing = 140;
}

sdk-InOrder : InOrder sdk
sdk-InOrder = omega arith

abbrev header : Header
header = record { time = 17; space_id = 0; type = 10; is_live = true }

abbrev bend_event : MidiEvent
bend_event = record { header = header; port_index = pos 1; data0 = 0xE3; data1 = 5; data2 = 64 }

abbrev buses : List ℤ
buses = minus_one ∷ pos 0 ∷ []

midi1_output-Reads_example :
    Reads steps sdk (λ v. v) buses bend_event (midi1_output steps sdk buses bend_event)
midi1_output-Reads_example =
    midi1_output-Reads steps sdk (λ v. v) buses bend_event sdk-InOrder (λ n h. ground arith)
      (omega arith) (omega arith)

abbrev message : SysexEvent
message = record { header = header; port_index = pos 1; buffer = some (0xF0 ∷ 1 ∷ 2 ∷ 0xF7 ∷ []) }

abbrev unframed : SysexEvent
unframed = record { header = header; port_index = pos 1; buffer = some (0xF0 ∷ 1 ∷ 2 ∷ []) }

-- A host that takes two events.
abbrev takes_two : List (VstEvent steps) → VstEvent steps → Bool
takes_two held e = ltb (length held) 2

abbrev block_start : SysexOutput
block_start = record { bytes = replicate (64 * 1024) 0; size = 0 }

block_start-IsStored : IsStored steps block_start []
block_start-IsStored = record {
  length_bytes = length-replicate {A = ℕ} (64 * 1024) 0;
  size_le = omega arith;
  lies = _;
}

enqueue_all-IsStored_example :
    let (sent, s, q) =
      enqueue_all steps takes_two buses (message ∷ unframed ∷ message ∷ []) block_start (some []) in
    IsStored steps s (held steps q)
    × (payloads steps s.bytes (held steps q) ≡ payloads steps block_start.bytes [] ++ sent)
enqueue_all-IsStored_example =
    enqueue_all-IsStored steps takes_two buses (message ∷ unframed ∷ message ∷ []) block_start
      (some []) block_start-IsStored
