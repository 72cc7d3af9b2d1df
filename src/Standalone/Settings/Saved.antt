-- ===== src/Standalone/Settings/Saved.antt =====
-- What `save` of standalone_settings.cpp writes.
use wrac_plugin_template.Prelude.{
  ℕ, ltb, if◌then◌else◌, List, [], ◌∷◌, ◌++◌, map, Option, none, some,
}
use wrac_plugin_template.Prelude.Text.{Text}
use wrac_plugin_template.Standalone.Settings.{escape, print_pairs}
use wrac_plugin_template.Standalone.Settings.Decimal.{print_nat, print_int}
use wrac_plugin_template.Standalone.Settings.Words.{
  k_version, k_audio_api_name, k_input_device_id, k_output_device_id, k_input_device_name,
  k_output_device_name, k_audio_input_used, k_audio_output_used, k_input_first_channel,
  k_output_first_channel, k_sample_rate, k_buffer_size, k_midi_bind_all_ports, k_midi_port,
  k_midi_port_id, k_midi_output_port, k_midi_output_port_id, k_midi_virtual_input,
  k_midi_virtual_output, k_screen_appearance, k_plugin_state_persistence, k_window_x, k_window_y,
  k_window_width, k_window_height, comment_1, comment_2, comment_3,
}
use wrac_plugin_template.Standalone.Settings.Fields.{
  StandaloneSettings, port_value, from_bool, from_appearance, from_persistence,
}

abbrev pub from_first : Text → ℕ → List (Text × Text)
from_first key n = if ltb 0 n then (key, print_nat n) ∷ [] else []

abbrev pub head_pairs : StandaloneSettings → List (Text × Text)
head_pairs s =
    (k_version, print_nat 1)
    ∷ (k_audio_api_name, s.audio_api_name)
    ∷ (k_output_device_id, s.output_device_id)
    ∷ (k_output_device_name, s.output_device_name)
    ∷ (k_input_device_id, s.input_device_id)
    ∷ (k_input_device_name, s.input_device_name)
    ∷ (k_audio_output_used, from_bool s.audio_output_used)
    ∷ (k_audio_input_used, from_bool s.audio_input_used)
    ∷ (k_sample_rate, print_int s.sample_rate)
    ∷ []

abbrev pub buffer_pairs : StandaloneSettings → List (Text × Text)
buffer_pairs s =
    (k_buffer_size, print_nat s.buffer_size)
    ∷ (k_midi_bind_all_ports, from_bool s.midi_bind_all_ports)
    ∷ []

abbrev pub port_pairs : StandaloneSettings → List (Text × Text)
port_pairs s =
    map (λ name. (k_midi_port, name)) s.midi_port_names
    ++ (map (λ port. (k_midi_port_id, port_value port)) s.midi_port_ids
        ++ (map (λ name. (k_midi_output_port, name)) s.midi_output_port_names
            ++ map (λ port. (k_midi_output_port_id, port_value port)) s.midi_output_port_ids))

abbrev pub virtual_pairs : StandaloneSettings → List (Text × Text)
virtual_pairs s =
    (k_midi_virtual_input, from_bool s.midi_virtual_input)
    ∷ (k_midi_virtual_output, from_bool s.midi_virtual_output)
    ∷ (k_screen_appearance, from_appearance s.screen_appearance)
    ∷ []

abbrev pub persistence_pairs : Option ℕ → List (Text × Text)
persistence_pairs none = []
persistence_pairs (some p) = (k_plugin_state_persistence, from_persistence p) ∷ []

abbrev pub window_pairs : StandaloneSettings → List (Text × Text)
window_pairs s =
    if s.has_window_position
    then (k_window_x, print_int s.window_x)
      ∷ (k_window_y, print_int s.window_y)
      ∷ (k_window_width, print_nat s.window_width)
      ∷ (k_window_height, print_nat s.window_height)
      ∷ []
    else []

abbrev pub known_pairs : StandaloneSettings → List (Text × Text)
known_pairs s =
    head_pairs s
    ++ (from_first k_output_first_channel s.output_first_channel
        ++ (from_first k_input_first_channel s.input_first_channel
            ++ (buffer_pairs s
                ++ (port_pairs s
                    ++ (virtual_pairs s
                        ++ (persistence_pairs s.plugin_state_persistence ++ window_pairs s))))))

-- The keys that are not known are escaped when they are written.
abbrev pub unknown_pairs : List (Text × Text) → List (Text × Text)
unknown_pairs pairs = map (λ p. (escape p.0, p.1)) pairs

abbrev pub comments : Text
comments = comment_1 ++ 0x0A ∷ (comment_2 ++ 0x0A ∷ (comment_3 ++ 0x0A ∷ []))

-- `save`
unfoldable pub save : StandaloneSettings → Text
unfolding escape print_pairs
save s = comments ++ print_pairs (known_pairs s ++ unknown_pairs s.unknown_keys)
