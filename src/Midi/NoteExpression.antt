-- ===== src/Midi/NoteExpression.antt =====
-- `noteExpressionToMidi1`. The expression ids of CLAP that have a MIDI 1.0 message are parameters,
-- and so is the arithmetic of doubles.
use wrac_plugin_template.Prelude.Int.{ℤ, pos, negsuc, is_negative, to_ℕ}
use wrac_plugin_template.Prelude.Double.{Doubles}
use wrac_plugin_template.Midi.ChannelVoice.{Midi1}
use wrac_plugin_template.Midi.ChannelVoice.Laws.{IsMessage}
use wrac_plugin_template.Prelude.{
  ◌^◌, ◌/◌, arith, ◌<◌, ◌>>>◌, bit_or, u8, ◌≤◌, some, false, bit_and, ltb, ◌==◌, ◌≡◌, ℕ,
  if◌then◌else◌, Option,
}
use wrac_plugin_template.Prelude.{Option, none, some, bit_and, bit_or, u8, ◌>>>◌}
use wrac_plugin_template.Prelude.Bits.{bit_or-add, bit_and-mask}

pub record ExpressionIds : Type 0 where
  pub pressure : ℕ
  pub tuning : ℕ

module _ (ids : ExpressionIds) (doubles : Doubles) where
  open doubles use {Double, lit, neg, add, mul, div, lt, trunc}

  -- The key and the channel are an `int16_t` each, -1 for any.
  pub record Expression : Type 0 where
    pub expression_id : ℕ
    pub channel : ℤ
    pub key : ℤ
    pub value : Double

  abbrev pub clamp : Double → Double → Double → Double
  clamp lo hi v = let w = if lt v lo then lo else v in if lt hi w then hi else w

  -- `channel & 0x0F` and `key & 0x7F` of a value that is not negative.
  abbrev pub channel_of : ℤ → ℕ
  channel_of c = if is_negative c then 0 else bit_and (to_ℕ c) 0x0F

  abbrev pub bend_of : Double → ℕ
  bend_of value =
      let normalized = clamp (neg (lit 1)) (lit 1) (div value (lit 2)) in
      let bend = trunc (mul (add normalized (lit 1)) (lit 8192)) in
      if ltb 16383 bend then 16383 else bend

  unfoldable pub note_expression_to_midi1 : Expression → Option Midi1
  note_expression_to_midi1 ne =
      let channel = channel_of ne.channel in
      if ne.expression_id == ids.pressure
      then if is_negative ne.key
        then some (record {
          count = 2;
          status = u8 (bit_or 0xD0 channel);
          data1 = u8 (trunc (mul (clamp (lit 0) (lit 1) ne.value) (lit 127)));
          data2 = 0;
        })
        else some (record {
          count = 3;
          status = u8 (bit_or 0xA0 channel);
          data1 = u8 (bit_and (to_ℕ ne.key) 0x7F);
          data2 = u8 (trunc (mul (clamp (lit 0) (lit 1) ne.value) (lit 127)));
        })
      else if ne.expression_id == ids.tuning
      then some (record {
        count = 3;
        status = u8 (bit_or 0xE0 channel);
        data1 = u8 (bit_and (bend_of ne.value) 0x7F);
        data2 = u8 (bit_and (bend_of ne.value >>> 7) 0x7F);
      })
      else none

  abbrev pub EmitsMessage : Option Midi1 → Type 0
  EmitsMessage none = Unit {0}
  EmitsMessage (some m) = IsMessage m

  -- A value between 0 and 1, scaled by an integer that doubles hold exactly, does not exceed it; and
  -- 0 and 1 are in order.
  pub record Scales : Type 0 where
    pub scaled :
        (v : Double) (n : ℕ)
        → lt v (lit 0) ≡ false
        → lt (lit 1) v ≡ false
        → trunc (mul v (lit n)) ≤ n
    pub zero_one : lt (lit 1) (lit 0) ≡ false
    pub irreflexive : (v : Double) → lt v v ≡ false

  in_range :
      Scales
      → (v : Double)
      → let c = clamp (lit 0) (lit 1) v in (lt c (lit 0) ≡ false) × (lt (lit 1) c ≡ false)
  in_range s v = ground (arith, s.zero_one, s.irreflexive (lit 0), s.irreflexive (lit 1))

  data_byte : Scales → (v : Double) → trunc (mul (clamp (lit 0) (lit 1) v) (lit 127)) ≤ 127
  data_byte s v = s.scaled (clamp (lit 0) (lit 1) v) 127 (in_range s v).0 (in_range s v).1

  channel-lt : (c : ℤ) → channel_of c < 16
  channel-lt (pos n) = omega (arith, bit_and-mask 4 n)
  channel-lt (negsuc n) = omega arith

  -- A note expression becomes no message or a MIDI 1.0 message.
  pub note_expression_to_midi1-EmitsMessage :
      (ne : Expression) → Scales → EmitsMessage (note_expression_to_midi1 ne)
  unfolding note_expression_to_midi1
  note_expression_to_midi1-EmitsMessage ne s = ground (
    arith,
    channel-lt ne.channel,
    bit_or-add 4 0xA0 (channel_of ne.channel),
    bit_or-add 4 0xD0 (channel_of ne.channel),
    bit_or-add 4 0xE0 (channel_of ne.channel),
    data_byte s ne.value,
    bit_and-mask 7 (to_ℕ ne.key),
    bit_and-mask 7 (bend_of ne.value),
    bit_and-mask 7 (bend_of ne.value / 2 ^ 7),
  )
