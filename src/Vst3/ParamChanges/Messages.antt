-- ===== src/Vst3/ParamChanges/Messages.antt =====
-- The messages of the controllers are MIDI 1.0 messages on the channel of the parameter.
use wrac_plugin_template.Prelude.{
  List, Option, ◌≡◌, arith, ◌<◌, ◌||◌, ◌&&◌, ◌+◌, ◌*◌, ◌%◌, ◌/◌, ◌^◌, ltb, ℕ, Bool, true, ◌==◌,
  if◌then◌else◌,
}
use wrac_plugin_template.Prelude.Bits.{bit_or-add, bit_and-mask}
use wrac_plugin_template.Prelude.Double.{Doubles}
use wrac_plugin_template.Vst3.Midi1.{Controllers}
use wrac_plugin_template.Vst3.Midi1.Reading.{InOrder}
use wrac_plugin_template.Vst3.ParamChanges.{ℤ, Parameter, Change, midi, param_value, midi_of}

module _ (doubles : Doubles) (Value : Type 0) (sdk : Controllers) where
  -- The status and the data bytes of the message of a controller: the pressure of the channel, the
  -- 14 bits of a pitch bend with the low ones first, a program, or the value of a control change.
  abbrev pub status_of : ℕ → ℕ → ℕ
  status_of c channel =
      if c == sdk.after_touch
      then 0xD0 + channel
      else if c == sdk.pitch_bend
      then 0xE0 + channel
      else if c == sdk.program_change
      then 0xC0 + channel
      else 0xB0 + channel

  abbrev pub carries_value : (controller value data1 data2 : ℕ) → Bool
  carries_value c v data1 data2 =
      if c == sdk.after_touch
      then data1 == v && data2 == 0
      else if c == sdk.pitch_bend
      then data1 + 128 * data2 == v % 2 ^ 14
      else if c == sdk.program_change
      then data1 == v % 2 ^ 7 && data2 == 0
      else data1 == c && data2 == v

  -- A message of the parameter's controller on its channel, whose data bytes carry the value.
  abbrev pub Carries : Parameter doubles Value → ℕ → Change doubles Value → Type 0
  Carries p v (param_value id cookie value) = ⊥
  Carries p v (midi status data1 data2) =
      (status ≡ status_of p.controller p.channel)
      × (data1 < 128)
      × (data2 < 128)
      × (carries_value p.controller v data1 data2 ≡ true)

  -- The controllers whose values may exceed a data byte, and those beyond the control changes.
  abbrev pub is_wide : ℕ → Bool
  is_wide c = c == sdk.pitch_bend || c == sdk.program_change

  abbrev pub is_special : ℕ → Bool
  is_special c = c == sdk.after_touch || is_wide c

  -- A parameter whose channel is below 16, whose controller is special or below 128, and whose value
  -- is below 128 unless it may exceed a data byte, gives the channel message of its controller on its
  -- channel: the data bytes are the pressure and 0 for an after touch, the low 7 and the next 7 bits
  -- of the value for a pitch bend, the low 7 bits and 0 for a program change, and the controller and
  -- the value for every other. The SDK numbers the controllers in its order.
  pub midi_of-Carries :
      (parameters : ℕ → Option (Parameter doubles Value)) (gestured : List ℕ)
      (to_int64 : doubles.Double → ℤ) (has_automation : Bool) (p : Parameter doubles Value)
      (value : Value)
      → InOrder sdk
      → p.channel < 16
      → (is_special p.controller || ltb p.controller 128) ≡ true
      → (is_wide p.controller || ltb (doubles.trunc (p.as_clap_value value)) 128) ≡ true
      → Carries p
          (doubles.trunc (p.as_clap_value value))
          (midi_of doubles Value sdk parameters gestured to_int64 has_automation p value)
  unfolding midi_of
  midi_of-Carries parameters gestured to_int64 has_automation p value o c n w = ground (
    arith,
    bit_or-add 4 0xD0 p.channel,
    bit_or-add 4 0xE0 p.channel,
    bit_or-add 4 0xC0 p.channel,
    bit_or-add 4 0xB0 p.channel,
    bit_and-mask 7 (doubles.trunc (p.as_clap_value value) % 2 ^ 16),
    bit_and-mask 7 (doubles.trunc (p.as_clap_value value) % 2 ^ 16 / 2 ^ 7),
  )
