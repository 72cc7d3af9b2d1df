-- ===== src/Standalone/Settings/Rest.antt =====
-- The rest of the parts, and all of them together.
use wrac_plugin_template.Prelude.{
  ℕ, zero, suc, ◌<◌, true, false, if◌then◌else◌, List, [], ◌∷◌, ◌++◌, append-nil, append_assoc, All,
  Option, none, some, inl, inr, ◌≡◌, refl, sym, ap, ◌∙◌, arith,
}
use wrac_plugin_template.Prelude.Text.{Text, same}
use wrac_plugin_template.Standalone.Settings.Words.{
  k_version, k_audio_api_name, k_input_device_id, k_output_device_id, k_input_device_name,
  k_output_device_name, k_audio_input_used, k_audio_output_used, k_input_first_channel,
  k_output_first_channel, k_sample_rate, k_buffer_size, k_midi_bind_all_ports, k_midi_port,
  k_midi_port_id, k_midi_output_port, k_midi_output_port_id, k_midi_virtual_input,
  k_midi_virtual_output, k_screen_appearance, k_plugin_state_persistence, k_window_x, k_window_y,
  k_window_width, k_window_height,
}
use wrac_plugin_template.Standalone.Settings.Fields.{
  StandaloneSettings, as_appearance, from_appearance, as_persistence, apply_pair, apply, apply_all,
}
use wrac_plugin_template.Standalone.Settings.Saved.{virtual_pairs, persistence_pairs, window_pairs}
use wrac_plugin_template.Standalone.Settings.Decimal.{print_nat, print_int}
use wrac_plugin_template.Standalone.Settings.Escapes.{is_key, is_value}
use wrac_plugin_template.Standalone.Settings.Saveable.{
  is_known, IsDefaultWindow, small_persistence, IsSaveable, state, as_bool-from_bool,
  as_i32-print_int, as_u32-print_nat,
}

as_appearance-from_appearance : (n : ℕ) → n < 3 → as_appearance (from_appearance n) ≡ n
unfolding as_appearance same
as_appearance-from_appearance zero h = refl
as_appearance-from_appearance (suc zero) h = refl
as_appearance-from_appearance (suc (suc zero)) h = refl
as_appearance-from_appearance (suc (suc (suc n))) h = absurd (omega (arith, h))

pub apply-virtual :
    (s t : StandaloneSettings)
    → IsSaveable s
    → apply_all (virtual_pairs s) (state true t)
      ≡ state true (record t {
        midi_virtual_input = s.midi_virtual_input;
        midi_virtual_output = s.midi_virtual_output;
        screen_appearance = s.screen_appearance;
      })
unfolding apply apply_pair same
apply-virtual s t h = λ i. state true (record t {
  midi_virtual_input = as_bool-from_bool s.midi_virtual_input i;
  midi_virtual_output = as_bool-from_bool s.midi_virtual_output i;
  screen_appearance = as_appearance-from_appearance s.screen_appearance h.screen_appearance i;
})

pub apply-persistence :
    (p : Option ℕ) (t : StandaloneSettings)
    → small_persistence p ≡ true
    → t.plugin_state_persistence ≡ none
    → apply_all (persistence_pairs p) (state true t)
      ≡ state true (record t { plugin_state_persistence = p })
unfolding apply apply_pair as_persistence same
apply-persistence none t h e = λ i. state true (record t { plugin_state_persistence = e i })
apply-persistence (some zero) t h e = refl
apply-persistence (some (suc zero)) t h e = refl
apply-persistence (some (suc (suc p))) t h e = ground (arith, h)

abbrev pub with_window : StandaloneSettings → StandaloneSettings → StandaloneSettings
with_window s t = record t {
  has_window_position = s.has_window_position;
  window_x = s.window_x;
  window_y = s.window_y;
  window_width = s.window_width;
  window_height = s.window_height;
}

pub apply-window :
    (s t : StandaloneSettings)
    → IsSaveable s
    → t.has_window_position ≡ false
    → IsDefaultWindow t
    → apply_all (window_pairs s) (state true t) ≡ state true (with_window s t)
unfolding apply apply_pair same
apply-window s t h e d = elim h.window [
  | inl has ↦
      ap
        (λ b.
          apply_all
            (if b
              then (k_window_x, print_int s.window_x)
                ∷ (k_window_y, print_int s.window_y)
                ∷ (k_window_width, print_nat s.window_width)
                ∷ (k_window_height, print_nat s.window_height)
                ∷ []
              else [])
            (state true t))
        has
      ∙ λ i. state true (record t {
        has_window_position = sym has i;
        window_x = as_i32-print_int s.window_x h.window_x i;
        window_y = as_i32-print_int s.window_y h.window_y i;
        window_width = as_u32-print_nat s.window_width h.window_width i;
        window_height = as_u32-print_nat s.window_height h.window_height i;
      })
  | inr missing ↦
      ap
        (λ b.
          apply_all
            (if b
              then (k_window_x, print_int s.window_x)
                ∷ (k_window_y, print_int s.window_y)
                ∷ (k_window_width, print_nat s.window_width)
                ∷ (k_window_height, print_nat s.window_height)
                ∷ []
              else [])
            (state true t))
        missing.0
      ∙ λ i. state true (record t {
        has_window_position = (e ∙ sym missing.0) i;
        window_x = (d.0 ∙ sym missing.1.0) i;
        window_y = (d.1 ∙ sym missing.1.1) i;
        window_width = (d.2 ∙ sym missing.1.2) i;
        window_height = (d.3 ∙ sym missing.1.3) i;
      })
]

apply_pair-unknown :
    (key value : Text) (t : StandaloneSettings)
    → is_known key ≡ false
    → apply_pair key value t ≡ record t { unknown_keys = t.unknown_keys ++ (key, value) ∷ [] }
unfolding apply_pair
apply_pair-unknown key value t h =
    let e_version : same key k_version ≡ false = ground (arith, h) in
    let e_audio_api_name : same key k_audio_api_name ≡ false = ground (arith, h) in
    let e_input_device_id : same key k_input_device_id ≡ false = ground (arith, h) in
    let e_output_device_id : same key k_output_device_id ≡ false = ground (arith, h) in
    let e_input_device_name : same key k_input_device_name ≡ false = ground (arith, h) in
    let e_output_device_name : same key k_output_device_name ≡ false = ground (arith, h) in
    let e_audio_input_used : same key k_audio_input_used ≡ false = ground (arith, h) in
    let e_audio_output_used : same key k_audio_output_used ≡ false = ground (arith, h) in
    let e_input_first_channel : same key k_input_first_channel ≡ false = ground (arith, h) in
    let e_output_first_channel : same key k_output_first_channel ≡ false = ground (arith, h) in
    let e_sample_rate : same key k_sample_rate ≡ false = ground (arith, h) in
    let e_buffer_size : same key k_buffer_size ≡ false = ground (arith, h) in
    let e_midi_bind_all_ports : same key k_midi_bind_all_ports ≡ false = ground (arith, h) in
    let e_midi_port : same key k_midi_port ≡ false = ground (arith, h) in
    let e_midi_port_id : same key k_midi_port_id ≡ false = ground (arith, h) in
    let e_midi_output_port : same key k_midi_output_port ≡ false = ground (arith, h) in
    let e_midi_output_port_id : same key k_midi_output_port_id ≡ false = ground (arith, h) in
    let e_midi_virtual_input : same key k_midi_virtual_input ≡ false = ground (arith, h) in
    let e_midi_virtual_output : same key k_midi_virtual_output ≡ false = ground (arith, h) in
    let e_screen_appearance : same key k_screen_appearance ≡ false = ground (arith, h) in
    let e_plugin_state_persistence : same key k_plugin_state_persistence ≡ false =
      ground (arith, h) in
    let e_window_x : same key k_window_x ≡ false = ground (arith, h) in
    let e_window_y : same key k_window_y ≡ false = ground (arith, h) in
    let e_window_width : same key k_window_width ≡ false = ground (arith, h) in
    let e_window_height : same key k_window_height ≡ false = ground (arith, h) in
    rw
      (
        e_version, e_audio_api_name, e_input_device_id, e_output_device_id, e_input_device_name,
        e_output_device_name, e_audio_input_used, e_audio_output_used, e_input_first_channel,
        e_output_first_channel, e_sample_rate, e_buffer_size, e_midi_bind_all_ports, e_midi_port,
        e_midi_port_id, e_midi_output_port, e_midi_output_port_id, e_midi_virtual_input,
        e_midi_virtual_output, e_screen_appearance, e_plugin_state_persistence, e_window_x,
        e_window_y, e_window_width, e_window_height,
      )
      refl

pub apply-unknown :
    (pairs : List (Text × Text)) (t : StandaloneSettings)
    → All (λ p. ((is_key p.0 ≡ true) × (is_known p.0 ≡ false)) × (is_value p.1 ≡ true)) pairs
    → apply_all pairs (state true t)
      ≡ state true (record t { unknown_keys = t.unknown_keys ++ pairs })
unfolding apply
apply-unknown [] t h =
    λ i. state true (record t { unknown_keys = sym (append-nil t.unknown_keys) i })
apply-unknown (p ∷ pairs) t h =
    ap (λ u. apply_all pairs (state true u)) (apply_pair-unknown p.0 p.1 t h.0.0.1)
    ∙ apply-unknown pairs (record t { unknown_keys = t.unknown_keys ++ p ∷ [] }) h.1
    ∙ ap (λ l. state true (record t { unknown_keys = l }))
        (append_assoc t.unknown_keys (p ∷ []) pairs)
