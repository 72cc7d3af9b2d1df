-- ===== src/Standalone/Settings/Parts.antt =====
-- The loop of load undoes save, part by part.
use wrac_plugin_template.Prelude.{
  ℕ, zero, suc, ◌^◌, ◌<◌, ltb, true, false, if◌then◌else◌, List, [], ◌∷◌, ◌++◌, append-nil,
  append_assoc, map, All, ◌≡◌, refl, sym, ap, ◌∙◌, arith,
}
use wrac_plugin_template.Prelude.Text.{Text, same}
use wrac_plugin_template.Standalone.Ports.{SavedPort}
use wrac_plugin_template.Standalone.Settings.Words.{
  k_input_first_channel, k_output_first_channel, k_midi_port, k_midi_port_id, k_midi_output_port,
  k_midi_output_port_id,
}
use wrac_plugin_template.Standalone.Settings.Fields.{
  StandaloneSettings, default_settings, port_value, apply_pair, apply, apply_all, start,
}
use wrac_plugin_template.Standalone.Settings.Saved.{from_first, head_pairs, buffer_pairs}
use wrac_plugin_template.Standalone.Settings.Decimal.{digits, read_digits, skip_spaces, print_nat}
use wrac_plugin_template.Standalone.Settings.Escapes.{all_bytes, is_value}
use wrac_plugin_template.Standalone.Settings.Saveable.{
  IsSaveable, no_tab, state, as_bool-from_bool, as_i32-print_int, as_u32-print_nat,
  saved_port-port_value,
}

abbrev pub with_head : StandaloneSettings → StandaloneSettings
with_head s = record default_settings {
  version = s.version;
  audio_api_name = s.audio_api_name;
  output_device_id = s.output_device_id;
  output_device_name = s.output_device_name;
  input_device_id = s.input_device_id;
  input_device_name = s.input_device_name;
  audio_output_used = s.audio_output_used;
  audio_input_used = s.audio_input_used;
  sample_rate = s.sample_rate;
}

pub apply-head :
    (s : StandaloneSettings)
    → IsSaveable s
    → apply_all (head_pairs s) start ≡ state false (with_head s)
unfolding apply apply_pair same digits read_digits skip_spaces
apply-head s h = λ i. state false (record (with_head s) {
  version = sym h.version i;
  audio_output_used = as_bool-from_bool s.audio_output_used i;
  audio_input_used = as_bool-from_bool s.audio_input_used i;
  sample_rate = as_i32-print_int s.sample_rate h.sample_rate i;
})

pub apply-output_channel :
    (n : ℕ) (t : StandaloneSettings)
    → n < 2 ^ 32
    → t.output_first_channel ≡ 0
    → apply_all (from_first k_output_first_channel n) (state false t)
      ≡ state false (record t { output_first_channel = n })
unfolding apply apply_pair same
apply-output_channel zero t h e = λ i. state false (record t { output_first_channel = e i })
apply-output_channel (suc n) t h e =
    let positive : ltb 0 (suc n) ≡ true = ground arith in
    ap
      (λ b.
        apply_all (if b then (k_output_first_channel, print_nat (suc n)) ∷ [] else [])
          (state false t))
      positive
    ∙ ap (λ k. state false (record t { output_first_channel = k })) (as_u32-print_nat (suc n) h)

pub apply-input_channel :
    (n : ℕ) (t : StandaloneSettings)
    → n < 2 ^ 32
    → t.input_first_channel ≡ 0
    → apply_all (from_first k_input_first_channel n) (state false t)
      ≡ state false (record t { input_first_channel = n })
unfolding apply apply_pair same
apply-input_channel zero t h e = λ i. state false (record t { input_first_channel = e i })
apply-input_channel (suc n) t h e =
    let positive : ltb 0 (suc n) ≡ true = ground arith in
    ap
      (λ b.
        apply_all (if b then (k_input_first_channel, print_nat (suc n)) ∷ [] else [])
          (state false t))
      positive
    ∙ ap (λ k. state false (record t { input_first_channel = k })) (as_u32-print_nat (suc n) h)

pub apply-buffer :
    (s t : StandaloneSettings)
    → IsSaveable s
    → apply_all (buffer_pairs s) (state false t)
      ≡ state true
          (record t { buffer_size = s.buffer_size; midi_bind_all_ports = s.midi_bind_all_ports })
unfolding apply apply_pair same
apply-buffer s t h = λ i. state true (record t {
  buffer_size = as_u32-print_nat s.buffer_size h.buffer_size i;
  midi_bind_all_ports = as_bool-from_bool s.midi_bind_all_ports i;
})

-- A list whose elements are added one by one.
pub apply-each :
    {A : Type 0} {Ok : A → Type 0} (pair : A → Text × Text) (set : List A → StandaloneSettings)
    → ((before : List A) (x : A)
        → Ok x
        → apply (pair x) (state true (set before)) ≡ state true (set (before ++ x ∷ [])))
    → (xs before : List A) → All Ok xs
    → apply_all (map pair xs) (state true (set before)) ≡ state true (set (before ++ xs))
apply-each pair set one [] before h = ap (λ l. state true (set l)) (sym (append-nil before))
apply-each pair set one (x ∷ xs) before h =
    ap (apply_all (map pair xs)) (one before x h.0)
    ∙ apply-each pair set one xs (before ++ x ∷ []) h.1
    ∙ ap (λ l. state true (set l)) (append_assoc before (x ∷ []) xs)

pub apply-midi_ports :
    (names : List Text) (t : StandaloneSettings)
    → All (λ name. is_value name ≡ true) names
    → apply_all (map (λ name. (k_midi_port, name)) names) (state true t)
      ≡ state true (record t { midi_port_names = t.midi_port_names ++ names })
unfolding apply apply_pair same
apply-midi_ports names t =
    apply-each (λ name. (k_midi_port, name)) (λ l. record t { midi_port_names = l })
      (λ before name h. refl) names t.midi_port_names

pub apply-midi_outputs :
    (names : List Text) (t : StandaloneSettings)
    → All (λ name. is_value name ≡ true) names
    → apply_all (map (λ name. (k_midi_output_port, name)) names) (state true t)
      ≡ state true (record t { midi_output_port_names = t.midi_output_port_names ++ names })
unfolding apply apply_pair same
apply-midi_outputs names t =
    apply-each (λ name. (k_midi_output_port, name)) (λ l. record t { midi_output_port_names = l })
      (λ before name h. refl) names t.midi_output_port_names

pub apply-midi_port_ids :
    (ports : List SavedPort) (t : StandaloneSettings)
    → All (λ port. (all_bytes no_tab port.id ≡ true) × (is_value (port_value port) ≡ true)) ports
    → apply_all (map (λ port. (k_midi_port_id, port_value port)) ports) (state true t)
      ≡ state true (record t { midi_port_ids = t.midi_port_ids ++ ports })
unfolding apply apply_pair same
apply-midi_port_ids ports t =
    apply-each (λ port. (k_midi_port_id, port_value port)) (λ l. record t { midi_port_ids = l })
      (λ before port h.
        ap (λ (p : SavedPort). state true (record t { midi_port_ids = before ++ p ∷ [] }))
          (saved_port-port_value port.id port.name h.0))
      ports t.midi_port_ids

pub apply-midi_output_ids :
    (ports : List SavedPort) (t : StandaloneSettings)
    → All (λ port. (all_bytes no_tab port.id ≡ true) × (is_value (port_value port) ≡ true)) ports
    → apply_all (map (λ port. (k_midi_output_port_id, port_value port)) ports) (state true t)
      ≡ state true (record t { midi_output_port_ids = t.midi_output_port_ids ++ ports })
unfolding apply apply_pair same
apply-midi_output_ids ports t =
    apply-each (λ port. (k_midi_output_port_id, port_value port))
      (λ l. record t { midi_output_port_ids = l })
      (λ before port h.
        ap (λ (p : SavedPort). state true (record t { midi_output_port_ids = before ++ p ∷ [] }))
          (saved_port-port_value port.id port.name h.0))
      ports t.midi_output_port_ids
