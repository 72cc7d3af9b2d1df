-- ===== src/Standalone/MidiInput/Tests.antt =====
-- A note, a clock byte inside a system exclusive message, and two long system exclusive messages
-- that do not fit into the arena together.
use mathlib.Core.List.{flatten}
use wrac_plugin_template.Prelude.{
  ℕ, ◌^◌, ◌≡◌, refl, List, [], ◌∷◌, map, some, none, true, false, arith, All, replicate,
}
use wrac_plugin_template.MidiRing.{fresh}
use wrac_plugin_template.MidiRing.Spec.{offer}
use wrac_plugin_template.MidiRing.Holds.{Holds, fresh-Holds}
use wrac_plugin_template.Standalone.MidiInput.{Input, process_midi_message}
use wrac_plugin_template.Standalone.MidiInput.Block.{form, taken, waiting}
use wrac_plugin_template.Standalone.MidiInput.Flow.{
  Op, arrives, block, run, serve, arrive, run_refines, arrive-Holds,
}
use wrac_plugin_template.Standalone.MidiInput.Progress.{IsWhole, blocks-Deliver, run-AreWhole}

abbrev start : Input
start = record { midi_to_audio = fresh (2 ^ 16); midi_dropped = 0 }

start-Holds : Holds 16 start.midi_to_audio []
start-Holds = fresh-Holds 16 (omega arith) (omega arith)

abbrev script : List Op
script =
    arrives (some (0x90 ∷ 60 ∷ 100 ∷ []))
    ∷ arrives none
    ∷ arrives (some (0xFE ∷ []))
    ∷ block
    ∷ arrives (some (0xF8 ∷ []))
    ∷ arrives (some (0xF0 ∷ 1 ∷ 2 ∷ 3 ∷ 0xF7 ∷ []))
    ∷ arrives (some (0x90 ∷ 1 ∷ 2 ∷ 3 ∷ []))
    ∷ block
    ∷ block
    ∷ []

abbrev seen : List (List (List ℕ))
seen =
    ((0x90 ∷ 60 ∷ 100 ∷ []) ∷ [])
    ∷ ((0xF8 ∷ 0 ∷ 0 ∷ []) ∷ (0xF0 ∷ 1 ∷ 2 ∷ 3 ∷ 0xF7 ∷ []) ∷ [])
    ∷ []
    ∷ []

serve-script : serve true [] script ≡ seen
unfolding serve arrive offer taken waiting
serve-script = refl

-- A plugin that takes no MIDI does not see the system exclusive message.
serve-notes :
    serve false [] script ≡ ((0x90 ∷ 60 ∷ 100 ∷ []) ∷ []) ∷ ((0xF8 ∷ 0 ∷ 0 ∷ []) ∷ []) ∷ [] ∷ []
unfolding serve arrive offer taken waiting
serve-notes = refl

-- In an arena of which 65530 bytes are used, a message of seven bytes waits.
waiting-long :
    waiting 2 65530 ((0xF0 ∷ 1 ∷ 2 ∷ 3 ∷ 4 ∷ 5 ∷ 0xF7 ∷ []) ∷ (0xF8 ∷ []) ∷ [])
    ≡ (0xF0 ∷ 1 ∷ 2 ∷ 3 ∷ 4 ∷ 5 ∷ 0xF7 ∷ []) ∷ (0xF8 ∷ []) ∷ []
unfolding waiting
waiting-long = refl

run_refines_example : run true start script ≡ serve true [] script
run_refines_example = run_refines script true start [] (omega arith) start-Holds

abbrev note : List ℕ
note = 0x90 ∷ 60 ∷ 100 ∷ []

note-Holds : Holds 16 (process_midi_message true (some note) start).midi_to_audio (note ∷ [])
unfolding arrive offer
note-Holds = arrive-Holds true (some note) start [] (omega arith) start-Holds

blocks-Deliver_example :
    flatten (run true (process_midi_message true (some note) start) (replicate 2 block))
    ≡ map form (note ∷ [])
blocks-Deliver_example =
    blocks-Deliver 2 true (process_midi_message true (some note) start) (note ∷ []) note-Holds
      (omega arith)

run-AreWhole_example : All (All IsWhole) (run true start script)
run-AreWhole_example = run-AreWhole script true start (omega arith) start-Holds
