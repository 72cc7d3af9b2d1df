-- ===== src/Standalone/Settings/Saveable.antt =====
-- Settings that a file can hold, and what the loop of load makes of their pairs.
use wrac_plugin_template.Prelude.{
  ℕ, ◌^◌, ◌<◌, ltb, Bool, true, false, not, ◌||◌, ◌==◌, if◌then◌else◌, List, [], ◌∷◌, ◌++◌, All,
  Option, none, some, ◌⊎◌, ◌≡◌, refl, ap, ◌∙◌, arith,
}
use wrac_plugin_template.Prelude.Int.{ℤ, pos, to_u32}
use wrac_plugin_template.Prelude.Text.{Text, same}
use wrac_plugin_template.Standalone.Ports.{SavedPort}
use wrac_plugin_template.Standalone.Settings.Words.{
  k_version, k_audio_api_name, k_input_device_id, k_output_device_id, k_input_device_name,
  k_output_device_name, k_audio_input_used, k_audio_output_used, k_input_first_channel,
  k_output_first_channel, k_sample_rate, k_buffer_size, k_midi_bind_all_ports, k_midi_port,
  k_midi_port_id, k_midi_output_port, k_midi_output_port_id, k_midi_virtual_input,
  k_midi_virtual_output, k_screen_appearance, k_plugin_state_persistence, k_window_x, k_window_y,
  k_window_width, k_window_height,
}
use wrac_plugin_template.Standalone.Settings.Fields.{
  StandaloneSettings, saved_port, port_value, as_bool, from_bool, as_u32, as_i32, Loaded, apply,
  apply_all,
}
use wrac_plugin_template.Standalone.Settings.Decimal.{
  print_nat, print_int, is_int32, i32, atol-print_nat, atol-print_int, i32-is_int32,
}
use wrac_plugin_template.Standalone.Settings.Escapes.{all_bytes, is_key, is_value}

abbrev pub no_tab : ℕ → Bool
no_tab c = not (c == 0x09)

abbrev pub is_known : Text → Bool
is_known key =
    same key k_version
    || (same key k_audio_api_name
        || (same key k_input_device_id
            || (same key k_output_device_id
                || (same key k_input_device_name
                    || (same key k_output_device_name
                        || (same key k_audio_input_used
                            || (same key k_audio_output_used
                                || (same key k_input_first_channel
                                    || (same key k_output_first_channel
                                        || (same key k_sample_rate
                                            || (same key k_buffer_size
                                                || (same key k_midi_bind_all_ports
                                                    || (same key k_midi_port
                                                        || (same key k_midi_port_id
                                                            || (same key k_midi_output_port
                                                            || (same key k_midi_output_port_id
                                                            || (same key k_midi_virtual_input
                                                            || (same key k_midi_virtual_output
                                                            || (same key k_screen_appearance
                                                            || (same key k_plugin_state_persistence
                                                            || (same key k_window_x
                                                            || (same key k_window_y
                                                            || (same key k_window_width
                                                            || (same key
                                                            k_window_height))))))))))))))))))))))))

abbrev pub IsDefaultWindow : StandaloneSettings → Type 0
IsDefaultWindow s =
    (s.window_x ≡ pos 0) × (s.window_y ≡ pos 0) × (s.window_width ≡ 0) × (s.window_height ≡ 0)

abbrev pub small_persistence : Option ℕ → Bool
small_persistence none = true
small_persistence (some p) = ltb p 2

-- The version is the current one, no text begins or ends with a blank, no id of a port has a tab,
-- the numbers are in their ranges, a window has a position or no size, and the unknown keys are such
-- that a line can have.
pub record IsSaveable (s : StandaloneSettings) : Type 0 where
  pub version : s.version ≡ pos 1
  pub audio_api_name : is_value s.audio_api_name ≡ true
  pub input_device_id : is_value s.input_device_id ≡ true
  pub output_device_id : is_value s.output_device_id ≡ true
  pub input_device_name : is_value s.input_device_name ≡ true
  pub output_device_name : is_value s.output_device_name ≡ true
  pub sample_rate : is_int32 s.sample_rate ≡ true
  pub input_first_channel : s.input_first_channel < 2 ^ 32
  pub output_first_channel : s.output_first_channel < 2 ^ 32
  pub buffer_size : s.buffer_size < 2 ^ 32
  pub midi_port_names : All (λ name. is_value name ≡ true) s.midi_port_names
  pub midi_port_ids :
      All
        (λ port. (all_bytes no_tab port.id ≡ true) × (is_value (port_value port) ≡ true))
        s.midi_port_ids
  pub midi_output_port_names : All (λ name. is_value name ≡ true) s.midi_output_port_names
  pub midi_output_port_ids :
      All
        (λ port. (all_bytes no_tab port.id ≡ true) × (is_value (port_value port) ≡ true))
        s.midi_output_port_ids
  pub screen_appearance : s.screen_appearance < 3
  pub plugin_state_persistence : small_persistence s.plugin_state_persistence ≡ true
  pub window :
      (s.has_window_position ≡ true) ⊎ ((s.has_window_position ≡ false) × IsDefaultWindow s)
  pub window_x : is_int32 s.window_x ≡ true
  pub window_y : is_int32 s.window_y ≡ true
  pub window_width : s.window_width < 2 ^ 32
  pub window_height : s.window_height < 2 ^ 32
  pub unknown_keys :
      All
        (λ p. ((is_key p.0 ≡ true) × (is_known p.0 ≡ false)) × (is_value p.1 ≡ true))
        s.unknown_keys

abbrev pub state : Bool → StandaloneSettings → Loaded
state saw t = record { settings = t; saw_midi_selection = saw; saw_any_key = true }

pub as_bool-from_bool : (b : Bool) → as_bool (from_bool b) ≡ b
unfolding as_bool same
as_bool-from_bool true = refl
as_bool-from_bool false = refl

pub as_i32-print_int : (z : ℤ) → is_int32 z ≡ true → as_i32 (print_int z) ≡ z
as_i32-print_int z h = ap i32 (atol-print_int z) ∙ i32-is_int32 z h

pub as_u32-print_nat : (n : ℕ) → n < 2 ^ 32 → as_u32 (print_nat n) ≡ n
as_u32-print_nat n h = ap to_u32 (atol-print_nat n) ∙ omega (arith, h)

pub saved_port-port_value :
    (id name : Text)
    → all_bytes no_tab id ≡ true
    → saved_port (id ++ 0x09 ∷ name) ≡ record { id = id; name = name }
unfolding saved_port
saved_port-port_value [] name h = refl
saved_port-port_value (c ∷ id) name h =
    let e : (c == 0x09) ≡ false = ground (arith, h) in
    ap
      (λ (rest : SavedPort).
        if c == 0x09
        then record { id = []; name = id ++ 0x09 ∷ name }
        else record rest { id = c ∷ rest.id })
      (saved_port-port_value id name (ground (arith, h)))
    ∙ ap
        (λ b.
          if b
          then record { id = []; name = id ++ 0x09 ∷ name }
          else record { id = c ∷ id; name = name })
        e

pub apply_all-append :
    (ps qs : List (Text × Text)) (l l' l'' : Loaded)
    → apply_all ps l ≡ l'
    → apply_all qs l' ≡ l''
    → apply_all (ps ++ qs) l ≡ l''
apply_all-append [] qs l l' l'' h k = ap (apply_all qs) h ∙ k
apply_all-append (p ∷ ps) qs l l' l'' h k = apply_all-append ps qs (apply p l) l' l'' h k
