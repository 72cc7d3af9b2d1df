-- ===== src/Standalone/Settings/Values.antt =====
-- All that save writes is such that a line can have it.
use wrac_plugin_template.Prelude.{
  ℕ, zero, suc, ◌+◌, ◌/◌, ◌%◌, ltb, Bool, true, false, ◌==◌, if◌then◌else◌, List, [], ◌∷◌, ◌++◌,
  map, All, All-append, Option, none, some, inl, inr, ◌≡◌, refl, sym, ap, ◌∙◌, arith, Bool-cases,
}
use wrac_plugin_template.Prelude.Int.{ℤ, pos, negsuc}
use wrac_plugin_template.Prelude.Text.{Text}
use wrac_plugin_template.Standalone.Ports.{SavedPort}
use wrac_plugin_template.Standalone.Settings.Words.{
  k_input_first_channel, k_output_first_channel, k_midi_port, k_midi_port_id, k_midi_output_port,
  k_midi_output_port_id, w_none, w_session, w_light, w_dark, w_auto,
}
use wrac_plugin_template.Standalone.Settings.Fields.{
  StandaloneSettings, port_value, from_bool, from_appearance, from_persistence,
}
use wrac_plugin_template.Standalone.Settings.Saved.{
  from_first, head_pairs, buffer_pairs, port_pairs, virtual_pairs, persistence_pairs, window_pairs,
  known_pairs,
}
use wrac_plugin_template.Standalone.Settings.Decimal.{
  digits, print_nat, print_int, numeral, print_nat-IsNumeral,
}
use wrac_plugin_template.Standalone.Settings.Escapes.{
  starts, ends, all_bytes, not_blank, is_key, is_value, ends-append,
}
use wrac_plugin_template.Standalone.Settings.Lines.{IsPair}
use wrac_plugin_template.Standalone.Settings.Saveable.{no_tab, is_known, IsSaveable}

-- All that is written is such that a line can have it.
print_nat-is_value : (n : ℕ) → is_value (print_nat n) ≡ true
unfolding digits
print_nat-is_value n =
    let front = if ltb n 10 then [] else digits n (n / 10) in
    let first : starts not_blank (print_nat n) ≡ true = elim (print_nat-IsNumeral n) [
      | numeral d t small q ↦ ap (starts not_blank) q ∙ ground (arith, small)
    ] in
    let last : ends not_blank (print_nat n) ≡ true =
      ends-append not_blank front (0x30 + n % 10) [] ∙ ground arith in
    ground (arith, first, last)

print_int-is_value : (z : ℤ) → is_value (print_int z) ≡ true
print_int-is_value (pos n) = print_nat-is_value n
print_int-is_value (negsuc n) = elim (print_nat-IsNumeral (suc n)) [
  | numeral d t small q ↦
      ap (ends not_blank) (ap (λ (s : Text). 0x2D ∷ s) q)
      ∙ sym (ap (ends not_blank) q)
      ∙ ground (arith, print_nat-is_value (suc n))
]

from_bool-is_value : (b : Bool) → is_value (from_bool b) ≡ true
from_bool-is_value true = refl
from_bool-is_value false = refl

from_appearance-is_value : (n : ℕ) → is_value (from_appearance n) ≡ true
from_appearance-is_value n = elim (Bool-cases (n == 1)) [
  | inl e ↦ ap (λ b. is_value (if b then w_light else if n == 2 then w_dark else w_auto)) e
  | inr e ↦
      ap (λ b. is_value (if b then w_light else if n == 2 then w_dark else w_auto)) e
      ∙ elim (Bool-cases (n == 2)) [
        | inl e2 ↦ ap (λ b. is_value (if b then w_dark else w_auto)) e2
        | inr e2 ↦ ap (λ b. is_value (if b then w_dark else w_auto)) e2
      ]
]

from_persistence-is_value : (n : ℕ) → is_value (from_persistence n) ≡ true
from_persistence-is_value n = elim (Bool-cases (n == 1)) [
  | inl e ↦ ap (λ b. is_value (if b then w_none else w_session)) e
  | inr e ↦ ap (λ b. is_value (if b then w_none else w_session)) e
]

from_first-ArePairs : (key : Text) (n : ℕ) → is_key key ≡ true → All IsPair (from_first key n)
from_first-ArePairs key zero h = tt
from_first-ArePairs key (suc n) h =
    let positive : ltb 0 (suc n) ≡ true = ground arith in
    rw positive ((h, print_nat-is_value (suc n)), tt)

names-ArePairs :
    (key : Text) (names : List Text)
    → is_key key ≡ true
    → All (λ name. is_value name ≡ true) names
    → All IsPair (map (λ name. (key, name)) names)
names-ArePairs key [] h v = tt
names-ArePairs key (name ∷ names) h v = ((h, v.0), names-ArePairs key names h v.1)

ports-ArePairs :
    (key : Text) (ports : List SavedPort)
    → is_key key ≡ true
    → All (λ port. (all_bytes no_tab port.id ≡ true) × (is_value (port_value port) ≡ true)) ports
    → All IsPair (map (λ port. (key, port_value port)) ports)
ports-ArePairs key [] h v = tt
ports-ArePairs key (port ∷ ports) h v = ((h, v.0.1), ports-ArePairs key ports h v.1)

persistence-ArePairs : (p : Option ℕ) → All IsPair (persistence_pairs p)
persistence-ArePairs none = tt
persistence-ArePairs (some p) = ((refl, from_persistence-is_value p), tt)

window-ArePairs : (s : StandaloneSettings) → All IsPair (window_pairs s)
window-ArePairs s = elim (Bool-cases s.has_window_position) [
  | inl e ↦ rw e (
    (refl, print_int-is_value s.window_x),
    (
      (refl, print_int-is_value s.window_y),
      ((refl, print_nat-is_value s.window_width), ((refl, print_nat-is_value s.window_height), tt)),
    ),
  )
  | inr e ↦ rw e tt
]

head-ArePairs : (s : StandaloneSettings) → IsSaveable s → All IsPair (head_pairs s)
head-ArePairs s h = (
  (refl, print_nat-is_value 1),
  (
    (refl, h.audio_api_name),
    (
      (refl, h.output_device_id),
      (
        (refl, h.output_device_name),
        (
          (refl, h.input_device_id),
          (
            (refl, h.input_device_name),
            (
              (refl, from_bool-is_value s.audio_output_used),
              (
                (refl, from_bool-is_value s.audio_input_used),
                ((refl, print_int-is_value s.sample_rate), tt),
              ),
            ),
          ),
        ),
      ),
    ),
  ),
)

unknown-ArePairs :
    (pairs : List (Text × Text))
    → All (λ p. ((is_key p.0 ≡ true) × (is_known p.0 ≡ false)) × (is_value p.1 ≡ true)) pairs
    → All IsPair pairs
unknown-ArePairs [] h = tt
unknown-ArePairs (p ∷ pairs) h = ((h.0.0.0, h.0.1), unknown-ArePairs pairs h.1)

pub saved-ArePairs :
    (s : StandaloneSettings) → IsSaveable s → All IsPair (known_pairs s ++ s.unknown_keys)
saved-ArePairs s h =
    All-append IsPair (known_pairs s) s.unknown_keys
      (All-append IsPair (head_pairs s) _ (head-ArePairs s h) (
        All-append IsPair (from_first k_output_first_channel s.output_first_channel) _
          (from_first-ArePairs k_output_first_channel s.output_first_channel refl)
          (All-append IsPair (from_first k_input_first_channel s.input_first_channel) _
            (from_first-ArePairs k_input_first_channel s.input_first_channel refl)
            (All-append IsPair (buffer_pairs s) _
              (
                (refl, print_nat-is_value s.buffer_size),
                ((refl, from_bool-is_value s.midi_bind_all_ports), tt),
              )
              (All-append IsPair (port_pairs s) _ ports (
                All-append IsPair (virtual_pairs s) _
                  (
                    (refl, from_bool-is_value s.midi_virtual_input),
                    (
                      (refl, from_bool-is_value s.midi_virtual_output),
                      ((refl, from_appearance-is_value s.screen_appearance), tt),
                    ),
                  )
                  (All-append IsPair (persistence_pairs s.plugin_state_persistence) _
                    (persistence-ArePairs s.plugin_state_persistence) (window-ArePairs s))))))))
      (unknown-ArePairs s.unknown_keys h.unknown_keys)
  where
    ports : All IsPair (port_pairs s)
    ports =
        All-append IsPair (map (λ name. (k_midi_port, name)) s.midi_port_names) _
          (names-ArePairs k_midi_port s.midi_port_names refl h.midi_port_names)
          (All-append IsPair (map (λ port. (k_midi_port_id, port_value port)) s.midi_port_ids) _
            (ports-ArePairs k_midi_port_id s.midi_port_ids refl h.midi_port_ids)
            (All-append IsPair (map (λ name. (k_midi_output_port, name)) s.midi_output_port_names) _
              (names-ArePairs k_midi_output_port s.midi_output_port_names refl
                h.midi_output_port_names)
              (ports-ArePairs k_midi_output_port_id s.midi_output_port_ids refl
                h.midi_output_port_ids)))
