-- ===== src/Midi/ChannelVoice/Laws.antt =====
-- What comes out of the down-conversion.
use wrac_plugin_template.Prelude.{
  ◌+◌, ◌⊎◌, ◌≢◌, ltb, ◌&&◌, ◌*◌, ◌%◌, if◌then◌else◌, ◌/◌, ◌^◌, ◌≤◌, ◌<◌, ℕ, ◌≡◌, Option, none, some,
  arith, u8,
}
use wrac_plugin_template.Prelude.Bits.{high_nibble, bit_or-add, bit_and-mask}
use wrac_plugin_template.Midi.ChannelVoice.{
  bit_or, leb, bit_and, Midi1, ump_message_word_count, midi1_to_ump_word,
  midi2_channel_voice_to_midi1,
}

-- A MIDI 1.0 channel-voice message: a status byte, two data bytes, and the length of the status.
pub record IsMessage (m : Midi1) : Type 0 where
  pub status_ge : 0x80 ≤ m.status
  pub status_lt : m.status < 0xF0
  pub data1_lt : m.data1 < 128
  pub data2_lt : m.data2 < 128
  pub length_of_status : m.count ≡ (if leb 0xC0 m.status && ltb m.status 0xE0 then 2 else 3)

-- What is emitted for the first word `w0`: nothing, if it is no MIDI 2.0 channel-voice word or its
-- opcode has no MIDI 1.0 message; else a message with the opcode and the channel of `w0`, and a
-- note-on that no receiver takes for a note-off.
abbrev pub Emits : ℕ → Option Midi1 → Type 0
Emits w0 none = (w0 / 2 ^ 28 ≢ 4) ⊎ ((w0 / 2 ^ 20 % 16 < 8) ⊎ (w0 / 2 ^ 20 % 16 ≡ 15))
Emits w0 (some m) =
    (w0 / 2 ^ 28 ≡ 4)
    × IsMessage m
    × (m.status ≡ w0 / 2 ^ 16 % 256)
    × ((m.status < 0x90) ⊎ ((0xA0 ≤ m.status) ⊎ (0 < m.data2)))

status_byte : (x : ℕ) → u8 (bit_or (u8 (bit_and x 0xF0)) (u8 (bit_and x 0x0F))) ≡ x % 256
status_byte x =
    let high : u8 (bit_and x 0xF0) ≡ x / 16 % 16 * 16 = omega (arith, high_nibble x) in
    let low : u8 (bit_and x 0x0F) ≡ x % 16 = omega (arith, bit_and-mask 4 x) in
    rw (high, low)
      (omega (arith, bit_or-add 4 (x / 16 % 16 * 16) (x % 16) (omega arith) (omega arith)))

-- Every conversion of two 32-bit words emits nothing, or a MIDI 1.0 message for the same channel.
pub midi2_channel_voice_to_midi1-Emits :
    (w0 w1 : ℕ) → w0 < 2 ^ 32 → w1 < 2 ^ 32 → Emits w0 (midi2_channel_voice_to_midi1 w0 w1)
unfolding midi2_channel_voice_to_midi1
midi2_channel_voice_to_midi1-Emits w0 w1 h0 h1 = ground (
  arith,
  status_byte (w0 / 2 ^ 16),
  high_nibble (w0 / 2 ^ 16),
  bit_and-mask 4 (w0 / 2 ^ 28),
  bit_and-mask 7 (w0 / 2 ^ 8),
  bit_and-mask 7 (w1 / 2 ^ 24),
  bit_and-mask 7 (w1 / 2 ^ 18),
  bit_and-mask 7 (w1 / 2 ^ 18 / 2 ^ 7),
)

-- The word for a MIDI 1.0 message is one message of one word, and holds the three bytes.
pub midi1_to_ump_word_lem :
    (status data1 data2 : ℕ)
    → status < 256
    → data1 < 256
    → data2 < 256
    → let w = midi1_to_ump_word status data1 data2 in
      (w / 2 ^ 28 ≡ 2)
      × (ump_message_word_count w ≡ 1)
      × (w / 2 ^ 16 % 256 ≡ status)
      × (w / 2 ^ 8 % 256 ≡ data1)
      × (w % 256 ≡ data2)
unfolding ump_message_word_count
midi1_to_ump_word_lem status data1 data2 hs h1 h2 =
    ground (arith, sum, bit_and-mask 4 (midi1_to_ump_word status data1 data2 / 2 ^ 28))
  where
    sum :
        midi1_to_ump_word status data1 data2 ≡ 2 * 2 ^ 28 + status * 2 ^ 16 + data1 * 2 ^ 8 + data2
    sum =
        unfold midi1_to_ump_word in
        rw
          (
            bit_or-add 28 (2 * 2 ^ 28) (0 * 2 ^ 24) (omega arith) (omega arith),
            bit_or-add 28 (2 * 2 ^ 28 + 0 * 2 ^ 24) (status * 2 ^ 16) (omega arith) (omega arith),
            bit_or-add 16 (2 * 2 ^ 28 + 0 * 2 ^ 24 + status * 2 ^ 16) (data1 * 2 ^ 8) (omega arith)
                (omega arith),
            bit_or-add 8 (2 * 2 ^ 28 + 0 * 2 ^ 24 + status * 2 ^ 16 + data1 * 2 ^ 8) data2
                (omega arith) (omega arith),
          )
          (omega arith)
