-- ===== src/Standalone/MidiOutput/Tests.antt =====
-- A chord, a clock byte, a note without a key, and a message that a short event cannot hold.
use wrac_plugin_template.Prelude.{◌^◌, ◌≡◌, refl, List, [], ◌∷◌, some, none, true, false, arith}
use wrac_plugin_template.Prelude.Int.{pos, negsuc}
use wrac_plugin_template.MidiRing.{fresh}
use wrac_plugin_template.MidiRing.Spec.{offer}
use wrac_plugin_template.MidiRing.Holds.{fresh-Holds}
use wrac_plugin_template.Standalone.MidiOutput.{
  Event, midi, sysex, note, other, short_midi_message_size, note_message, all_notes_off,
  midi_output_loop,
}
use wrac_plugin_template.Standalone.MidiOutput.Session.{
  message_of, queued, sent, midi_output_loop-Sends,
}

abbrev rounds : List (List Event)
rounds =
    (note true (pos 1) (pos 60) (pos 127) ∷ note true (pos 1) (pos 64) (pos 0) ∷ [])
    ∷ []
    ∷ (midi (0xF8 ∷ 0 ∷ 0 ∷ [])
        ∷ midi (0xF0 ∷ 1 ∷ 2 ∷ [])
        ∷ note false (pos 1) (negsuc 0) (pos 0)
        ∷ note false (pos 1) (pos 60) (pos 200)
        ∷ sysex none
        ∷ sysex (some (0xF0 ∷ 7 ∷ 0xF7 ∷ []))
        ∷ other
        ∷ [])
    ∷ []

sent-rounds :
    sent false rounds
    ≡ (0x91 ∷ 60 ∷ 127 ∷ [])
      ∷ (0x91 ∷ 64 ∷ 1 ∷ [])
      ∷ (0xF8 ∷ [])
      ∷ (0x81 ∷ 60 ∷ 127 ∷ [])
      ∷ (0xF0 ∷ 7 ∷ 0xF7 ∷ [])
      ∷ all_notes_off 16
unfolding sent queued message_of offer short_midi_message_size note_message
sent-rounds = refl

sent-clock : sent false ((midi (0xF8 ∷ 1 ∷ 2 ∷ []) ∷ []) ∷ []) ≡ (0xF8 ∷ []) ∷ []
unfolding sent queued message_of offer short_midi_message_size
sent-clock = refl

midi_output_loop-Sends_example : (midi_output_loop (fresh (2 ^ 16)) rounds).0 ≡ sent false rounds
midi_output_loop-Sends_example =
    midi_output_loop-Sends rounds (fresh (2 ^ 16)) [] (fresh-Holds 16 (omega arith) (omega arith))
