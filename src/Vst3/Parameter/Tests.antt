-- ===== src/Vst3/Parameter/Tests.antt =====
-- A selector that is made without presets and then resized.
use wrac_plugin_template.Prelude.{◌+◌, ◌-◌, ◌*◌, ◌/◌, ℕ, [], ◌∷◌, ◌≡◌, refl, ltb, arith}
use wrac_plugin_template.Prelude.Int.{ℤ, pos, negsuc, to_ℕ}
use wrac_plugin_template.Prelude.Double.{Doubles}
use wrac_plugin_template.Vst3.Parameter.{
  VstFlags, ClapFlags, ControllerNumbers, Vst3Parameter, create, flags_of_clap, as_clap_value,
  as_vst3_value, preset_count, create_preset_selector,
}
use wrac_plugin_template.Vst3.Parameter.PresetSelector.{
  resize_all, create_preset_selector-Publishes,
}

-- Doubles that are not negative, in thousandths.
abbrev thousandths : Doubles
thousandths = record {
  Double = ℕ;
  lit = λ n. n * 1000;
  neg = λ a. 0;
  add = λ a b. a + b;
  sub = λ a b. a - b;
  mul = λ a b. a * b / 1000;
  div = λ a b. a * 1000 / b;
  floor = λ a. a / 1000 * 1000;
  lt = ltb;
  trunc = λ a. a / 1000;
}

abbrev of_int : ℤ → ℕ
of_int n = to_ℕ n * 1000

abbrev to_int32 : ℕ → ℤ
to_int32 d = pos (d / 1000)

abbrev vst : VstFlags
vst = record {
  can_automate = 1;
  is_read_only = 2;
  is_list = 8;
  is_hidden = 16;
  is_program_change = 32768;
  is_bypass = 65536;
}

abbrev clap : ClapFlags
clap = record {
  stepped = 1;
  enum = 65536;
  hidden = 4;
  read_only = 8;
  bypass = 16;
  automatable = 32;
}

abbrev controllers : ControllerNumbers
controllers = record { ctrl_program_change = 130; pitch_bend = 129 }

abbrev Parameter : Type 0
Parameter = Vst3Parameter thousandths of_int of_int to_int32 vst clap controllers

-- A stepped parameter from 1 to 5.
abbrev stepped : Parameter
stepped = create thousandths of_int of_int to_int32 vst clap controllers (record {
  id = 0x80000007;
  flags = 33;
  cookie = 3;
  min_value = 1000;
  max_value = 5000;
  default_value = 2000;
})

stepped-info :
    stepped.info ≡ record { id = 7; step_count = pos 4; default_normalized_value = 250; flags = 1 }
unfolding create flags_of_clap
stepped-info = refl

stepped-values :
    as_clap_value thousandths of_int of_int to_int32 vst clap controllers stepped 500 ≡ 3000
unfolding create flags_of_clap as_clap_value
stepped-values = refl

stepped-normalized :
    as_vst3_value thousandths of_int of_int to_int32 vst clap controllers stepped 3000 ≡ 500
unfolding create flags_of_clap as_vst3_value
stepped-normalized = refl

create_preset_selector-Publishes_example :
    preset_count thousandths of_int of_int to_int32 vst clap controllers (
      resize_all thousandths of_int of_int to_int32 vst clap controllers
        (create_preset_selector thousandths of_int of_int to_int32 vst clap controllers 9 (pos 0))
        (pos 3 ∷ negsuc 0 ∷ pos 12 ∷ []))
    ≡ pos 12
create_preset_selector-Publishes_example =
    create_preset_selector-Publishes thousandths of_int of_int to_int32 vst clap controllers 4
      (omega arith) refl 9 (pos 0) (pos 3 ∷ negsuc 0 ∷ pos 12 ∷ [])
