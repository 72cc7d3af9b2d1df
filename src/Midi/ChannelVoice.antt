-- ===== src/Midi/ChannelVoice.antt =====
-- `umpMessageWordCount`, `midi1ToUmpWord` and `midi2ChannelVoiceToMidi1`.
pub mod Laws
use wrac_plugin_template.Prelude.{
  ℕ, ◌*◌, ◌/◌, ◌^◌, bit_and, bit_or, ◌==◌, leb, ◌&&◌, ◌||◌, Option, none, some, u8, if◌then◌else◌,
  ◌<<<◌, ◌>>>◌,
}

pub ump_message_word_count : ℕ → ℕ
ump_message_word_count word0 =
    let t = bit_and (word0 >>> 28) 0xF in
    if leb t 0x2 || t == 0x6 || t == 0x7
    then 1
    else if t == 0x3 || t == 0x4 || t == 0x8 || t == 0x9 || t == 0xA
    then 2
    else if t == 0xB || t == 0xC
    then 3
    else if t == 0x5 || t == 0xD || t == 0xE || t == 0xF
    then 4
    else 1

pub midi1_to_ump_word : ℕ → ℕ → ℕ → ℕ
midi1_to_ump_word status data1 data2 =
    bit_or (bit_or (bit_or (bit_or (2 <<< 28) (0 <<< 24)) (status <<< 16)) (data1 <<< 8)) data2

-- The three bytes of `out`, and how many of them are the message.
pub record Midi1 : Type 0 where
  pub count : ℕ
  pub status : ℕ
  pub data1 : ℕ
  pub data2 : ℕ

-- A note-on whose velocity scales down to 0 keeps velocity 1.
abbrev pub note_velocity : ℕ → ℕ → ℕ
note_velocity status vel = if status == 0x90 && vel == 0 then 1 else vel

-- `none` is the return value 0, which leaves `out` alone.
unfoldable pub midi2_channel_voice_to_midi1 : ℕ → ℕ → Option Midi1
midi2_channel_voice_to_midi1 w0 w1 =
    let status = u8 (bit_and (w0 >>> 16) 0xF0) in
    let channel = u8 (bit_and (w0 >>> 16) 0x0F) in
    let index = u8 (bit_and (w0 >>> 8) 0x7F) in
    let out0 = u8 (bit_or status channel) in
    if bit_and (w0 >>> 28) 0xF == 0x4
    then if status == 0x80 || status == 0x90
      then some (record {
        count = 3;
        status = out0;
        data1 = index;
        data2 = note_velocity status (u8 (w1 >>> 16 >>> 9));
      })
      else if status == 0xA0 || status == 0xB0
      then some (record { count = 3; status = out0; data1 = index; data2 = u8 (w1 >>> 25) })
      else if status == 0xC0
      then some
          (record { count = 2; status = out0; data1 = u8 (bit_and (w1 >>> 24) 0x7F); data2 = 0 })
      else if status == 0xD0
      then some (record { count = 2; status = out0; data1 = u8 (w1 >>> 25); data2 = 0 })
      else if status == 0xE0
      then some (record {
        count = 3;
        status = out0;
        data1 = u8 (bit_and (w1 >>> 18) 0x7F);
        data2 = u8 (bit_and (w1 >>> 18 >>> 7) 0x7F);
      })
      else none
    else none
