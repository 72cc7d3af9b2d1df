-- ===== src/Standalone/Settings/Fields.antt =====
-- `StandaloneSettings` of clap_wrapper_builder/clap-wrapper/src/detail/standalone/standalone_settings.h
-- with load and save of standalone_settings.cpp. A file is its bytes, and the streams do not fail.
use wrac_plugin_template.Prelude.{
  ℕ, Bool, true, false, not, ◌||◌, ◌==◌, if◌then◌else◌, List, [], ◌∷◌, ◌++◌, Option, none, some,
}
use wrac_plugin_template.Prelude.Int.{ℤ, pos, to_u32}
use wrac_plugin_template.Prelude.Text.{Text, same}
use wrac_plugin_template.Standalone.Ports.{SavedPort}
use wrac_plugin_template.Standalone.Settings.{lines_of, read_lines, read_file}
use wrac_plugin_template.Standalone.Settings.Decimal.{atol, i32}
use wrac_plugin_template.Standalone.Settings.Words.{
  k_version, k_audio_api_name, k_input_device_id, k_output_device_id, k_input_device_name,
  k_output_device_name, k_audio_input_used, k_audio_output_used, k_input_first_channel,
  k_output_first_channel, k_sample_rate, k_buffer_size, k_midi_bind_all_ports, k_midi_port,
  k_midi_port_id, k_midi_output_port, k_midi_output_port_id, k_midi_virtual_input,
  k_midi_virtual_output, k_screen_appearance, k_plugin_state_persistence, k_window_x, k_window_y,
  k_window_width, k_window_height, w_true, w_false, w_one, w_yes, w_light, w_dark, w_auto, w_none,
  w_session,
}

pub record StandaloneSettings : Type 0 where
  pub version : ℤ
  pub audio_api_name : Text
  pub input_device_id : Text
  pub output_device_id : Text
  pub input_device_name : Text
  pub output_device_name : Text
  pub audio_input_used : Bool
  pub audio_output_used : Bool
  pub sample_rate : ℤ
  pub input_first_channel : ℕ
  pub output_first_channel : ℕ
  pub buffer_size : ℕ
  pub midi_bind_all_ports : Bool
  pub midi_port_names : List Text
  pub midi_port_ids : List SavedPort
  pub midi_output_port_names : List Text
  pub midi_output_port_ids : List SavedPort
  pub midi_virtual_input : Bool
  pub midi_virtual_output : Bool
  pub screen_appearance : ℕ
  pub plugin_state_persistence : Option ℕ
  pub has_window_position : Bool
  pub window_x : ℤ
  pub window_y : ℤ
  pub window_width : ℕ
  pub window_height : ℕ
  pub unknown_keys : List (Text × Text)

abbrev pub default_settings : StandaloneSettings
default_settings = record {
  version = pos 1;
  audio_api_name = [];
  input_device_id = [];
  output_device_id = [];
  input_device_name = [];
  output_device_name = [];
  audio_input_used = true;
  audio_output_used = true;
  sample_rate = pos 0;
  input_first_channel = 0;
  output_first_channel = 0;
  buffer_size = 256;
  midi_bind_all_ports = true;
  midi_port_names = [];
  midi_port_ids = [];
  midi_output_port_names = [];
  midi_output_port_ids = [];
  midi_virtual_input = false;
  midi_virtual_output = false;
  screen_appearance = 0;
  plugin_state_persistence = none;
  has_window_position = false;
  window_x = pos 0;
  window_y = pos 0;
  window_width = 0;
  window_height = 0;
  unknown_keys = [];
}

-- "id<tab>name"
unfoldable pub saved_port : Text → SavedPort
saved_port [] = record { id = []; name = [] }
saved_port (c ∷ value) =
    let rest = saved_port value in
    if c == 0x09 then record { id = []; name = value } else record rest { id = c ∷ rest.id }

abbrev pub port_value : SavedPort → Text
port_value port = port.id ++ 0x09 ∷ port.name

unfoldable pub as_bool : Text → Bool
as_bool v = same v w_true || (same v w_one || same v w_yes)

abbrev pub from_bool : Bool → Text
from_bool true = w_true
from_bool false = w_false

unfoldable pub as_appearance : Text → ℕ
as_appearance v = if same v w_light then 1 else if same v w_dark then 2 else 0

abbrev pub from_appearance : ℕ → Text
from_appearance n = if n == 1 then w_light else if n == 2 then w_dark else w_auto

unfoldable pub as_persistence : Text → ℕ
as_persistence v = if same v w_none then 1 else 0

abbrev pub from_persistence : ℕ → Text
from_persistence n = if n == 1 then w_none else w_session

abbrev pub as_u32 : Text → ℕ
as_u32 v = to_u32 (atol v)

abbrev pub as_i32 : Text → ℤ
as_i32 v = i32 (atol v)

-- What has been loaded, with the keys that were seen.
pub record Loaded : Type 0 where
  pub settings : StandaloneSettings
  pub saw_midi_selection : Bool
  pub saw_any_key : Bool

abbrev pub sees_midi : Text → Bool
sees_midi key = same key k_midi_bind_all_ports || same key k_midi_port

-- What a pair of a key and a value does to the settings.
unfoldable pub apply_pair : Text → Text → StandaloneSettings → StandaloneSettings
unfolding as_bool as_appearance as_persistence saved_port
apply_pair key value s =
    if same key k_version
    then record s { version = as_i32 value }
    else if same key k_audio_api_name
    then record s { audio_api_name = value }
    else if same key k_input_device_id
    then record s { input_device_id = value }
    else if same key k_output_device_id
    then record s { output_device_id = value }
    else if same key k_input_device_name
    then record s { input_device_name = value }
    else if same key k_output_device_name
    then record s { output_device_name = value }
    else if same key k_audio_input_used
    then record s { audio_input_used = as_bool value }
    else if same key k_audio_output_used
    then record s { audio_output_used = as_bool value }
    else if same key k_input_first_channel
    then record s { input_first_channel = as_u32 value }
    else if same key k_output_first_channel
    then record s { output_first_channel = as_u32 value }
    else if same key k_sample_rate
    then record s { sample_rate = as_i32 value }
    else if same key k_buffer_size
    then record s { buffer_size = as_u32 value }
    else if same key k_midi_bind_all_ports
    then record s { midi_bind_all_ports = as_bool value }
    else if same key k_midi_port
    then record s { midi_port_names = s.midi_port_names ++ value ∷ [] }
    else if same key k_midi_port_id
    then record s { midi_port_ids = s.midi_port_ids ++ saved_port value ∷ [] }
    else if same key k_midi_output_port
    then record s { midi_output_port_names = s.midi_output_port_names ++ value ∷ [] }
    else if same key k_midi_output_port_id
    then record s { midi_output_port_ids = s.midi_output_port_ids ++ saved_port value ∷ [] }
    else if same key k_midi_virtual_input
    then record s { midi_virtual_input = as_bool value }
    else if same key k_midi_virtual_output
    then record s { midi_virtual_output = as_bool value }
    else if same key k_screen_appearance
    then record s { screen_appearance = as_appearance value }
    else if same key k_plugin_state_persistence
    then record s { plugin_state_persistence = some (as_persistence value) }
    else if same key k_window_x
    then record s { window_x = as_i32 value; has_window_position = true }
    else if same key k_window_y
    then record s { window_y = as_i32 value }
    else if same key k_window_width
    then record s { window_width = as_u32 value }
    else if same key k_window_height
    then record s { window_height = as_u32 value }
    else record s { unknown_keys = s.unknown_keys ++ (key, value) ∷ [] }

unfoldable pub apply : Text × Text → Loaded → Loaded
unfolding apply_pair
apply (key, value) l = record {
  settings = apply_pair key value l.settings;
  saw_midi_selection = l.saw_midi_selection || sees_midi key;
  saw_any_key = true;
}

abbrev pub apply_all : List (Text × Text) → Loaded → Loaded
apply_all [] l = l
apply_all (p ∷ ps) l = apply_all ps (apply p l)

abbrev pub start : Loaded
start = record { settings = default_settings; saw_midi_selection = false; saw_any_key = false }

-- A file from before the selection of ports binds every port.
abbrev pub bind_all : StandaloneSettings → StandaloneSettings
bind_all s = record s { midi_bind_all_ports = true; midi_port_names = []; midi_port_ids = [] }

abbrev pub finish_load : Loaded → Option StandaloneSettings
finish_load l =
    if not l.saw_any_key
    then none
    else some (if l.saw_midi_selection then l.settings else bind_all l.settings)

-- `load`; none where it returns false. The file is none where it cannot be opened.
unfoldable pub load : Option Text → Option StandaloneSettings
unfolding apply read_lines lines_of
load none = none
load (some file) = finish_load (apply_all (read_file file) start)
