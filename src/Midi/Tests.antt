-- ===== src/Midi/Tests.antt =====
-- Examples of the conversions.
use wrac_plugin_template.Prelude.{ltb, ◌-◌, ◌+◌, ◌/◌, ◌*◌, ◌≤◌, ℕ, ◌≡◌, refl, [], ◌∷◌, some, arith}
use wrac_plugin_template.Prelude.Int.{pos, minus_one}
use wrac_plugin_template.Prelude.Double.{Doubles}
use wrac_plugin_template.Midi.Dialect.{Dialects, choose_input_dialect}
use wrac_plugin_template.Midi.ChannelVoice.{midi2_channel_voice_to_midi1}
use wrac_plugin_template.Midi.NoteExpression.{
  ExpressionIds, Expression, Scales, note_expression_to_midi1,
}
use wrac_plugin_template.Midi.Pool.{BufferPool}

abbrev clap_dialects : Dialects
clap_dialects = record { clap = 1; midi = 2; midi_mpe = 4; midi2 = 8 }

falls_back : choose_input_dialect clap_dialects 8 6 ≡ 2
unfolding choose_input_dialect
falls_back = refl

-- A note-on for key 60 on channel 2, softer than a velocity of MIDI 1.0.
quiet_note :
    midi2_channel_voice_to_midi1 0x4092_3C00 0x0100_0000
    ≡ some (record { count = 3; status = 0x92; data1 = 60; data2 = 1 })
unfolding midi2_channel_voice_to_midi1
quiet_note = refl

-- Doubles that are not negative, in halves.
abbrev halves : Doubles
halves = record {
  Double = ℕ;
  lit = λ n. n * 2;
  neg = λ a. 0;
  add = λ a b. a + b;
  sub = λ a b. a - b;
  mul = λ a b. a * b / 2;
  div = λ a b. a * 2 / b;
  floor = λ a. a / 2 * 2;
  lt = ltb;
  trunc = λ a. a / 2;
}

abbrev ids : ExpressionIds
ids = record { pressure = 6; tuning = 2 }

scaled_halves : (v n : ℕ) → v ≤ 2 → v * (n * 2) / 2 / 2 ≤ n
scaled_halves v n h = grind arith

halves-Scales : Scales ids halves
halves-Scales = record {
  scaled = λ v n p q. scaled_halves v n (ground arith);
  zero_one = refl;
  irreflexive = λ v. ground arith;
}

abbrev half_pressure : Expression ids halves
half_pressure = record { expression_id = 6; channel = pos 3; key = minus_one; value = 1 }

half_pressure_message :
    note_expression_to_midi1 ids halves half_pressure
    ≡ some (record { count = 2; status = 0xD3; data1 = 63; data2 = 0 })
unfolding note_expression_to_midi1
half_pressure_message = refl

abbrev last_cycle : BufferPool
last_cycle = record { buffers = (1 ∷ []) ∷ (2 ∷ []) ∷ []; used = 2 }
