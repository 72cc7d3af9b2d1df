-- ===== src/Standalone/Settings/Tests.antt =====
-- Settings with names that have to be escaped, and files as a user may write them.
use wrac_plugin_template.Prelude.{true, false, [], ◌∷◌, ◌++◌, none, some, inl, ◌≡◌, refl, arith}
use wrac_plugin_template.Prelude.Int.{pos, negsuc}
use wrac_plugin_template.Prelude.Text.{same}
use wrac_plugin_template.Standalone.Settings.{
  trim_front, trim_back, escape, unescape_from, lines_of, split_line, read_line, read_lines,
  read_file, print_pair, print_pairs,
}
use wrac_plugin_template.Standalone.Settings.Decimal.{read_digits, skip_spaces}
use wrac_plugin_template.Standalone.Settings.Words.{k_version, k_midi_port}
use wrac_plugin_template.Standalone.Settings.Fields.{
  StandaloneSettings, default_settings, apply_pair, apply, load,
}
use wrac_plugin_template.Standalone.Settings.Saved.{unknown_pairs, save}
use wrac_plugin_template.Standalone.Settings.Saveable.{IsSaveable}
use wrac_plugin_template.Standalone.Settings.RoundTrip.{load-save}

abbrev settings : StandaloneSettings
settings = record {
  version = pos 1;
  audio_api_name = 0x61 ∷ [];
  input_device_id = [];
  output_device_id = 0x62 ∷ 0x3D ∷ 0x5C ∷ [];
  input_device_name = [];
  output_device_name = 0x62 ∷ 0x20 ∷ 0x63 ∷ [];
  audio_input_used = false;
  audio_output_used = true;
  sample_rate = negsuc 47;
  input_first_channel = 0;
  output_first_channel = 3;
  buffer_size = 1024;
  midi_bind_all_ports = false;
  midi_port_names = (0x70 ∷ 0x0A ∷ []) ∷ (0x71 ∷ []) ∷ [];
  midi_port_ids = record { id = []; name = 0x71 ∷ [] } ∷ [];
  midi_output_port_names = [];
  midi_output_port_ids = [];
  midi_virtual_input = true;
  midi_virtual_output = false;
  screen_appearance = 2;
  plugin_state_persistence = some 1;
  has_window_position = true;
  window_x = negsuc 9;
  window_y = pos 20;
  window_width = 640;
  window_height = 480;
  unknown_keys = (0x7A ∷ [], 0x79 ∷ []) ∷ [];
}

settings-IsSaveable : IsSaveable settings
unfolding same
settings-IsSaveable = record {
  version = refl;
  audio_api_name = refl;
  input_device_id = refl;
  output_device_id = refl;
  input_device_name = refl;
  output_device_name = refl;
  sample_rate = refl;
  input_first_channel = omega arith;
  output_first_channel = omega arith;
  buffer_size = omega arith;
  midi_port_names = (refl, (refl, tt));
  midi_port_ids = ((refl, refl), tt);
  midi_output_port_names = tt;
  midi_output_port_ids = tt;
  screen_appearance = omega arith;
  plugin_state_persistence = refl;
  window = inl refl;
  window_x = refl;
  window_y = refl;
  window_width = omega arith;
  window_height = omega arith;
  unknown_keys = (((refl, refl), refl), tt);
}

load-save_example : load (some (save settings)) ≡ some settings
load-save_example = load-save settings settings-IsSaveable

-- A file without a key is refused, and so is one that cannot be opened.
load-empty : load (some (0x23 ∷ 0x61 ∷ 0x3D ∷ 0x62 ∷ 0x0A ∷ 0x20 ∷ 0x3D ∷ 0x62 ∷ 0x0A ∷ [])) ≡ none
unfolding load read_lines read_line lines_of trim_front trim_back split_line unescape_from
load-empty = refl

load-missing : load none ≡ none
unfolding load
load-missing = refl

-- A file from before the selection of ports binds every port, and one with a port need not.
load-old :
    load (some (k_version ++ 0x20 ∷ 0x3D ∷ 0x20 ∷ 0x32 ∷ 0x0D ∷ 0x0A ∷ []))
    ≡ some (record default_settings { version = pos 2 })
unfolding load read_lines read_line lines_of trim_front trim_back split_line unescape_from apply
    apply_pair same read_digits skip_spaces
load-old = refl

load-port :
    load (some (k_midi_port ++ 0x3D ∷ 0x61 ∷ 0x3D ∷ 0x62 ∷ []))
    ≡ some (record default_settings { midi_port_names = (0x61 ∷ 0x3D ∷ 0x62 ∷ []) ∷ [] })
unfolding load read_lines read_line lines_of trim_front trim_back split_line unescape_from apply
    apply_pair same
load-port = refl

-- A backslash in an unknown key is doubled by each save.
doubled :
    read_file (print_pairs (unknown_pairs ((0x61 ∷ 0x5C ∷ [], []) ∷ [])))
    ≡ (0x61 ∷ 0x5C ∷ 0x5C ∷ [], []) ∷ []
unfolding read_lines read_line lines_of trim_front trim_back split_line unescape_from escape
    print_pairs print_pair
doubled = refl
