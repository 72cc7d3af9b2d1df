-- ===== src/Vst3/Parameter.antt =====
-- `Vst3Parameter` (parameter.h, parameter.cpp), without the titles, the unit and the index of a
-- parameter. The conversions between numbers and doubles (one through `float`), and the constants of
-- VST3 and CLAP, are parameters.
pub mod PresetSelector
mod Tests
use wrac_plugin_template.Prelude.{
  ◌+◌, ◌-◌, ◌^◌, ℕ, zero, suc, Bool, true, false, ◌||◌, not, if◌then◌else◌, ltb, ◌==◌, bit_and,
  bit_or,
}
use wrac_plugin_template.Prelude.Int.{ℤ, pos, negsuc}
use wrac_plugin_template.Prelude.Double.{Doubles}

-- The flags of a parameter in VST3, and those in CLAP.
pub record VstFlags : Type 0 where
  pub can_automate : ℕ
  pub is_read_only : ℕ
  pub is_list : ℕ
  pub is_hidden : ℕ
  pub is_program_change : ℕ
  pub is_bypass : ℕ

pub record ClapFlags : Type 0 where
  pub stepped : ℕ
  pub enum : ℕ
  pub hidden : ℕ
  pub read_only : ℕ
  pub bypass : ℕ
  pub automatable : ℕ

-- `kCtrlProgramChange` and `kPitchBend`.
pub record ControllerNumbers : Type 0 where
  pub ctrl_program_change : ℕ
  pub pitch_bend : ℕ

abbrev pub is_positive : ℤ → Bool
is_positive (pos n) = ltb 0 n
is_positive (negsuc n) = false

abbrev pub has_flag : ℕ → ℕ → Bool
has_flag flags flag = not (bit_and flags flag == 0)

abbrev pub flag_if : Bool → ℕ → ℕ
flag_if b flag = if b then flag else 0

-- The steps of a list of presets.
pub steps_of : ℤ → ℕ
steps_of (pos n) = if ltb 1 n then n - 1 else 0
steps_of (negsuc n) = 0

pub next_int : ℤ → ℤ
next_int (pos n) = pos (n + 1)
next_int (negsuc zero) = pos 0
next_int (negsuc (suc n)) = negsuc n

module _ (doubles : Doubles) (of_int single_of_int : ℤ → doubles.Double)
    (to_int32 : doubles.Double → ℤ) (vst : VstFlags) (clap : ClapFlags)
    (controllers : ControllerNumbers) where
  open doubles use {Double, lit, add, sub, mul, div, floor, lt}

  pub record ParameterInfo : Type 0 where
    pub id : ℕ
    pub step_count : ℤ
    pub default_normalized_value : Double
    pub flags : ℕ

  pub record ClapParamInfo : Type 0 where
    pub id : ℕ
    pub flags : ℕ
    pub cookie : ℕ
    pub min_value : Double
    pub max_value : Double
    pub default_value : Double

  pub record Vst3Parameter : Type 0 where
    pub info : ParameterInfo
    pub id : ℕ
    pub cookie : ℕ
    pub min_value : Double
    pub max_value : Double
    pub is_midi : Bool
    pub is_preset : Bool
    pub channel : ℕ
    pub controller : ℕ

  pub as_clap_value : Vst3Parameter → Double → Double
  as_clap_value p vst3value =
      if is_positive p.info.step_count
      then add (mul vst3value (of_int p.info.step_count)) p.min_value
      else add (mul vst3value (sub p.max_value p.min_value)) p.min_value

  pub as_vst3_value : Vst3Parameter → Double → Double
  as_vst3_value p clapvalue =
      let range = sub p.max_value p.min_value in
      if is_positive p.info.step_count
      then div (floor (sub clapvalue p.min_value)) (single_of_int p.info.step_count)
      else if not (lt (lit 0) range)
      then lit 0
      else div (sub clapvalue p.min_value) range

  pub preset_count : Vst3Parameter → ℤ
  preset_count p =
      if not p.is_preset || has_flag p.info.flags vst.is_hidden
      then pos 0
      else next_int p.info.step_count

  pub is_wrapper_owned : Vst3Parameter → Bool
  is_wrapper_owned p = p.is_midi || p.is_preset

  -- `create` of a parameter of the plugin.
  pub flags_of_clap : ℕ → ℕ
  flags_of_clap flags =
      bit_or
        (bit_or
          (bit_or
            (bit_or (flag_if (has_flag flags clap.hidden) vst.is_hidden)
              (flag_if (has_flag flags clap.bypass) vst.is_bypass))
            (flag_if (has_flag flags clap.automatable) vst.can_automate))
          (flag_if (has_flag flags clap.read_only) vst.is_read_only))
        (flag_if (has_flag flags clap.enum) vst.is_list)

  pub create : ClapParamInfo → Vst3Parameter
  create c =
      let param_range = sub c.max_value c.min_value in
      record {
        info = record {
          id = bit_and c.id 0x7FFFFFFF;
          step_count =
              if has_flag c.flags clap.stepped || has_flag c.flags clap.enum
              then to_int32 param_range
              else pos 0;
          default_normalized_value = div (sub c.default_value c.min_value) param_range;
          flags = flags_of_clap c.flags;
        };
        id = c.id;
        cookie = c.cookie;
        min_value = c.min_value;
        max_value = c.max_value;
        is_midi = false;
        is_preset = false;
        channel = 0;
        controller = 0;
      }

  -- The constructor for a controller, and `create` of one.
  pub midi_parameter : ParameterInfo → ℕ → ℕ → Vst3Parameter
  midi_parameter i channel cc = record {
    info = i;
    id = i.id;
    cookie = 0;
    min_value = lit 0;
    max_value = if cc == controllers.pitch_bend then lit 16383 else lit 127;
    is_midi = true;
    is_preset = false;
    channel = channel;
    controller = cc;
  }

  pub create_controller : ℕ → ℕ → ℕ → Vst3Parameter
  create_controller channel cc id =
      midi_parameter
        (record {
          id = id;
          step_count = if cc == controllers.pitch_bend then pos 16383 else pos 127;
          default_normalized_value = lit 0;
          flags =
              if cc == controllers.ctrl_program_change
              then bit_or vst.is_program_change vst.can_automate
              else 0;
        })
        channel cc

  pub resize_preset_selector : Vst3Parameter → ℤ → Vst3Parameter
  resize_preset_selector p presets = record p {
    info = record p.info {
      step_count = pos (steps_of presets);
      flags =
          if is_positive presets
          then bit_and p.info.flags (2 ^ 32 - 1 - vst.is_hidden)
          else bit_or p.info.flags vst.is_hidden;
    };
    min_value = lit 0;
    max_value = of_int (pos (steps_of presets));
  }

  -- `create_preset_selector`, up to the number of presets.
  abbrev pub unsized_selector : ℕ → Vst3Parameter
  unsized_selector id =
      let i : ParameterInfo = record {
        id = id;
        step_count = pos 0;
        default_normalized_value = lit 0;
        flags = bit_or vst.is_program_change vst.is_list;
      } in
      record (midi_parameter i 0 0) {
        is_midi = false;
        is_preset = true;
        min_value = lit 0;
        max_value = lit 0;
      }

  pub create_preset_selector : ℕ → ℤ → Vst3Parameter
  create_preset_selector id presets = resize_preset_selector (unsized_selector id) presets
