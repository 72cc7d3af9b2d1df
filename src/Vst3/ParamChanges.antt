-- ===== src/Vst3/ParamChanges.antt =====
-- The parameter changes of a block, in `process`: a change becomes a parameter value, a MIDI message
-- or a request to load a preset.
pub mod Messages
use wrac_plugin_template.Prelude.{
  ◌^◌, ◌%◌, ◌||◌, ◌&&◌, ◌+◌, ◌-◌, not, u8, ◌>>>◌, bit_and, bit_or, leb, ltb, ℕ, Bool, true, false,
  ◌==◌, List, [], ◌∷◌, ◌++◌, Option, none, some, if◌then◌else◌, get_elem?, length,
}
use wrac_plugin_template.Prelude.Int.{ℤ, pos, negsuc, is_negative, to_ℕ, to_u32}
use wrac_plugin_template.Prelude.Double.{Doubles}
use wrac_plugin_template.Vst3.EventOrder.{EventList, push_back}
use wrac_plugin_template.Vst3.OutputEvents.{contains}
use wrac_plugin_template.Vst3.Midi1.{Controllers}

module _ (doubles : Doubles) (Value : Type 0) where
  open doubles use {Double, lit, add, div, trunc}

  -- `Vst3Parameter`, with `asClapValue`.
  pub record Parameter : Type 0 where
    pub id : ℕ
    pub cookie : ℕ
    pub is_preset : Bool
    pub is_midi : Bool
    pub channel : ℕ
    pub controller : ℕ
    pub as_clap_value : Value → Double

  -- `IParameterValueQueue`; `none` is a point that `getPoint` fails to give.
  pub record ValueQueue : Type 0 where
    pub parameter_id : ℕ
    pub points : List (Option (ℤ × Value))

  pub data Change : Type 0 where
    midi : ℕ → ℕ → ℕ → Change
    param_value : ℕ → ℕ → Double → Change

  pub record ChangeEvent : Type 0 where
    pub time : ℕ
    pub body : Change

  -- `to_int64` is the conversion to `int64_t`.
  module _ (sdk : Controllers) (parameters : ℕ → Option Parameter) (gestured : List ℕ)
      (to_int64 : Double → ℤ) (has_automation : Bool) where
    -- `getPoint(getPointCount() - 1)`, which fails where there is no point.
    abbrev pub last_point : List (Option (ℤ × Value)) → Option (ℤ × Value)
    last_point [] = none
    last_point (p ∷ []) = p
    last_point (p ∷ q ∷ ps) = last_point (q ∷ ps)

    -- The MIDI message of a controller, by `param->controller`.
    unfoldable pub midi_of : Parameter → Value → Change
    midi_of p value =
        let v = trunc (p.as_clap_value value) in
        let val = v % 2 ^ 16 in
        if p.controller == sdk.after_touch
        then midi (u8 (bit_or 0xD0 p.channel)) (u8 v) 0
        else if p.controller == sdk.pitch_bend
        then midi (u8 (bit_or 0xE0 p.channel)) (bit_and val 0x7F) (bit_and (val >>> 7) 0x7F)
        else if p.controller == sdk.program_change
        then midi (u8 (bit_or 0xC0 p.channel)) (bit_and val 0x7F) 0
        else midi (u8 (bit_or 0xB0 p.channel)) (u8 p.controller) (u8 v)

    abbrev pub change_of : Parameter → Value → Change
    change_of p value =
        if p.is_midi then midi_of p value else param_value p.id p.cookie (p.as_clap_value value)

    -- The index of the preset to load, if it is not negative.
    abbrev pub preset_index : Parameter → Value → Option ℕ
    preset_index p value =
        let index = to_int64 (add (p.as_clap_value value) (div (lit 1) (lit 2))) in
        if is_negative index || not has_automation then none else some (to_ℕ index)

    -- The event of one queue, and the request.
    unfoldable pub process_change : ValueQueue → Option ChangeEvent × Option ℕ
    process_change k =
        if contains k.parameter_id gestured
        then (none, none)
        else elim (parameters k.parameter_id) [
          | none ↦ (none, none)
          | some p ↦ elim (last_point k.points) [
            | none ↦ (none, none)
            | some (offset, value) ↦
                if p.is_preset
                then (none, preset_index p value)
                else (some (record { time = to_u32 offset; body = change_of p value }), none)
          ]
        ]

    -- The loop over the queues; `E` is the type of the events of the block.
    unfoldable pub process_changes :
        {E : Type 0}
        → (ChangeEvent → E)
        → List ValueQueue
        → EventList E
        → List ℕ
        → EventList E × List ℕ
    process_changes event [] l requests = (l, requests)
    process_changes event (k ∷ ks) l requests =
        let (made, wanted) = process_change k in
        process_changes event ks (elim made [ none ↦ l | some e ↦ push_back (event e) l ])
          (elim wanted [ none ↦ requests | some i ↦ requests ++ i ∷ [] ])
