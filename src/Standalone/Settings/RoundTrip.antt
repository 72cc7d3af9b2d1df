-- ===== src/Standalone/Settings/RoundTrip.antt =====
-- Settings that are saved are loaded.
use wrac_plugin_template.Prelude.{
  true, false, ◌==◌, List, [], ◌∷◌, ◌++◌, append-nil, map, All, none, some, ◌≡◌, refl, sym, ap, ap₂,
  ◌∙◌, arith,
}
use wrac_plugin_template.Prelude.Text.{Text}
use wrac_plugin_template.Standalone.Settings.Words.{
  k_input_first_channel, k_output_first_channel, k_midi_port, k_midi_port_id, k_midi_output_port,
  k_midi_output_port_id, comment_1, comment_2, comment_3,
}
use wrac_plugin_template.Standalone.Settings.Fields.{
  StandaloneSettings, port_value, apply_all, start, finish_load, load,
}
use wrac_plugin_template.Standalone.Settings.Saved.{
  from_first, head_pairs, buffer_pairs, port_pairs, virtual_pairs, persistence_pairs, window_pairs,
  known_pairs, unknown_pairs, comments, save,
}
use wrac_plugin_template.Standalone.Settings.{
  escape, read_file, read_lines, read_line, lines_of, trim_front, trim_back, print_pairs,
}
use wrac_plugin_template.Standalone.Settings.Escapes.{all_bytes, is_key, is_key_byte, is_value}
use wrac_plugin_template.Standalone.Settings.Lines.{lines_of-line, read_file-print_pairs}
use wrac_plugin_template.Standalone.Settings.Saveable.{
  is_known, IsSaveable, state, apply_all-append,
}
use wrac_plugin_template.Standalone.Settings.Parts.{
  with_head, apply-head, apply-output_channel, apply-input_channel, apply-buffer, apply-midi_ports,
  apply-midi_outputs, apply-midi_port_ids, apply-midi_output_ids,
}
use wrac_plugin_template.Standalone.Settings.Rest.{
  apply-virtual, apply-persistence, with_window, apply-window, apply-unknown,
}
use wrac_plugin_template.Standalone.Settings.Values.{saved-ArePairs}

-- The settings after the parts.
abbrev with_channels : StandaloneSettings → StandaloneSettings
with_channels s = record (with_head s) {
  output_first_channel = s.output_first_channel;
  input_first_channel = s.input_first_channel;
}

abbrev with_buffer : StandaloneSettings → StandaloneSettings
with_buffer s = record (with_channels s) {
  buffer_size = s.buffer_size;
  midi_bind_all_ports = s.midi_bind_all_ports;
}

abbrev with_ports : StandaloneSettings → StandaloneSettings
with_ports s = record (with_buffer s) {
  midi_port_names = s.midi_port_names;
  midi_port_ids = s.midi_port_ids;
  midi_output_port_names = s.midi_output_port_names;
  midi_output_port_ids = s.midi_output_port_ids;
}

abbrev with_virtual : StandaloneSettings → StandaloneSettings
with_virtual s = record (with_ports s) {
  midi_virtual_input = s.midi_virtual_input;
  midi_virtual_output = s.midi_virtual_output;
  screen_appearance = s.screen_appearance;
  plugin_state_persistence = s.plugin_state_persistence;
}

apply-ports :
    (s : StandaloneSettings)
    → IsSaveable s
    → apply_all (port_pairs s) (state true (with_buffer s)) ≡ state true (with_ports s)
apply-ports s h =
    let names = map (λ name. (k_midi_port, name)) s.midi_port_names in
    let ids = map (λ port. (k_midi_port_id, port_value port)) s.midi_port_ids in
    let outputs = map (λ name. (k_midi_output_port, name)) s.midi_output_port_names in
    let output_ids =
      map (λ port. (k_midi_output_port_id, port_value port)) s.midi_output_port_ids in
    let one = record (with_buffer s) { midi_port_names = s.midi_port_names } in
    let two = record one { midi_port_ids = s.midi_port_ids } in
    let three = record two { midi_output_port_names = s.midi_output_port_names } in
    apply_all-append names (ids ++ (outputs ++ output_ids)) _ _ _
      (apply-midi_ports s.midi_port_names (with_buffer s) h.midi_port_names)
      (apply_all-append ids (outputs ++ output_ids) _ _ _
        (apply-midi_port_ids s.midi_port_ids one h.midi_port_ids)
        (apply_all-append outputs output_ids _ _ _
          (apply-midi_outputs s.midi_output_port_names two h.midi_output_port_names)
          (apply-midi_output_ids s.midi_output_port_ids three h.midi_output_port_ids)))

apply-known :
    (s : StandaloneSettings)
    → IsSaveable s
    → apply_all (known_pairs s) start ≡ state true (with_window s (with_virtual s))
apply-known s h =
    let outputs = from_first k_output_first_channel s.output_first_channel in
    let inputs = from_first k_input_first_channel s.input_first_channel in
    let persistence = persistence_pairs s.plugin_state_persistence in
    let from_persistence = persistence ++ window_pairs s in
    let from_virtual = virtual_pairs s ++ from_persistence in
    let from_ports = port_pairs s ++ from_virtual in
    let from_buffer = buffer_pairs s ++ from_ports in
    let one = record (with_head s) { output_first_channel = s.output_first_channel } in
    let plain = record (with_virtual s) { plugin_state_persistence = none } in
    apply_all-append (head_pairs s) (outputs ++ (inputs ++ from_buffer)) _ _ _ (apply-head s h) (
      apply_all-append outputs (inputs ++ from_buffer) _ _ _
        (apply-output_channel s.output_first_channel (with_head s) h.output_first_channel refl)
        (apply_all-append inputs from_buffer _ _ _
          (apply-input_channel s.input_first_channel one h.input_first_channel refl)
          (apply_all-append (buffer_pairs s) from_ports _ _ _ (apply-buffer s (with_channels s) h) (
            apply_all-append (port_pairs s) from_virtual _ _ _ (apply-ports s h) (
              apply_all-append (virtual_pairs s) from_persistence _ _ _
                (apply-virtual s (with_ports s) h)
                (apply_all-append persistence (window_pairs s) _ _ _
                  (apply-persistence s.plugin_state_persistence plain h.plugin_state_persistence
                    refl)
                  (apply-window s (with_virtual s) h refl (refl, refl, refl, refl))))))))

apply-saved :
    (s : StandaloneSettings)
    → IsSaveable s
    → apply_all (known_pairs s ++ s.unknown_keys) start ≡ state true s
apply-saved s h =
    apply_all-append (known_pairs s) s.unknown_keys _ _ _ (apply-known s h)
      (apply-unknown s.unknown_keys (with_window s (with_virtual s)) h.unknown_keys)

-- The lines at the head are skipped, and a key without special bytes is written as it is.
read_file-comments : (t : Text) → read_file (comments ++ t) ≡ read_file t
unfolding lines_of read_lines read_line trim_front trim_back
read_file-comments t = ap read_lines (
    lines_of-line comment_1 (comment_2 ++ 0x0A ∷ (comment_3 ++ 0x0A ∷ t)) refl
    ∙ ap (◌∷◌ comment_1) (
        lines_of-line comment_2 (comment_3 ++ 0x0A ∷ t) refl
        ∙ ap (◌∷◌ comment_2) (lines_of-line comment_3 t refl)))

escape-key : (key : Text) → all_bytes is_key_byte key ≡ true → escape key ≡ key
unfolding escape
escape-key [] h = refl
escape-key (c ∷ key) h =
    let backslash : (c == 0x5C) ≡ false = ground (arith, h) in
    let newline : (c == 0x0A) ≡ false = ground (arith, h) in
    let return : (c == 0x0D) ≡ false = ground (arith, h) in
    let tab : (c == 0x09) ≡ false = ground (arith, h) in
    rw (backslash, newline, return, tab) (ap (◌∷◌ c) (escape-key key (ground (arith, h))))

unknown_pairs-keys :
    (pairs : List (Text × Text))
    → All (λ p. ((is_key p.0 ≡ true) × (is_known p.0 ≡ false)) × (is_value p.1 ≡ true)) pairs
    → unknown_pairs pairs ≡ pairs
unknown_pairs-keys [] h = refl
unknown_pairs-keys (p ∷ pairs) h =
    ap₂ (λ (key : Text) (rest : List (Text × Text)). (key, p.1) ∷ rest)
      (escape-key p.0 (ground (arith, h.0.0.0))) (unknown_pairs-keys pairs h.1)

-- Settings that are saved and then loaded are the same: of the current version, with texts that
-- neither begin nor end with a blank, ids of ports without a tab, numbers in their ranges, a window
-- that has a position or is at its defaults, and unknown keys of other names that have no "=", no
-- backslash and no control byte that is escaped, are not empty, begin with no "#" and neither begin
-- nor end with white space.
pub load-save : (s : StandaloneSettings) → IsSaveable s → load (some (save s)) ≡ some s
unfolding load save print_pairs lines_of read_lines
load-save s h =
    let pairs = known_pairs s ++ s.unknown_keys in
    let read : read_file (save s) ≡ pairs =
      ap (λ (ps : List (Text × Text)). read_file (comments ++ print_pairs (known_pairs s ++ ps)))
        (unknown_pairs-keys s.unknown_keys h.unknown_keys)
      ∙ read_file-comments (print_pairs pairs)
      ∙ ap read_file (sym (append-nil (print_pairs pairs)))
      ∙ read_file-print_pairs pairs [] (saved-ArePairs s h)
      ∙ append-nil pairs in
    ap (λ ps. finish_load (apply_all ps start)) read ∙ ap finish_load (apply-saved s h)
