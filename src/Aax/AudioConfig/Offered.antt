-- ===== src/Aax/AudioConfig/Offered.antt =====
-- The formats that are recorded of a plugin with configurable audio ports.
use wrac_plugin_template.Prelude.{
  ℕ, zero, suc, ◌+◌, Bool, true, false, ◌&&◌, ◌||◌, ◌==◌, if◌then◌else◌, List, [], ◌∷◌, ◌++◌, map,
  Option, none, some, ◌≤◌, ◌<◌, ◌≡◌, refl, ap, ap₂, ◌∙◌, arith,
}
use wrac_plugin_template.Prelude.Text.{Text}
use wrac_plugin_template.Aax.StemMaps.{StemMap, aax_channel_maps}
use wrac_plugin_template.Aax.AudioConfig.{
  request_of, collect, config_requests, with_stem, combi_of, offered, probe_all, has_none,
  placeholders, midi_in_found, midi_out_found, with_placeholders, no_buses, scan,
  get_available_bus_configs,
}
use wrac_plugin_template.Aax.Ports.{
  Sdk, PortInfo, AudioPorts, NotePorts, Request, StemFormatCombi, Plugin, PluginBusInfo,
}

abbrev pub is_some : {A : Type 0} → Option A → Bool
is_some none = false
is_some (some a) = true

-- A plugin with audio ports that can be configured.
abbrev pub configurable : AudioPorts → (List Request → Bool) → Option NotePorts → Plugin
configurable ports can_apply notes = record {
  audio_ports = some ports;
  can_apply_configuration = some can_apply;
  note_ports = notes;
}

module _ (sdk : Sdk) where
  -- `n` ports from index `i` on, each with the channels of a format.
  abbrev pub port_with : StemMap → Bool → ℕ → Request
  port_with m is_input i =
      let n = sdk.channel_count m.aax_stem_format in
      record {
        is_input = is_input;
        port_index = i;
        channel_count = n;
        port_type = some (
            if n == 1
            then sdk.port_mono
            else if n == 2
            then sdk.port_stereo
            else sdk.port_surround);
        port_details = if n == 1 || n == 2 then none else some m.clap_map;
      }

  abbrev pub ports_with : StemMap → Bool → ℕ → ℕ → List Request
  ports_with m is_input zero i = []
  ports_with m is_input (suc n) i = port_with m is_input i ∷ ports_with m is_input n (i + 1)

  abbrev pub all_ports_with : AudioPorts → StemMap → List Request
  all_ports_with ports m =
      ports_with m true (ports.count true) 0 ++ ports_with m false (ports.count false) 0

  -- The formats that a plugin accepts for all of its ports.
  abbrev pub accepted : (StemMap → Bool) → List StemMap → List StemFormatCombi
  accepted accepts [] = []
  accepted accepts (m ∷ maps) =
      (if accepts m then combi_of sdk m ∷ [] else []) ++ accepted accepts maps

  abbrev pub accepted_by : AudioPorts → (List Request → Bool) → List StemFormatCombi
  accepted_by ports can_apply =
      accepted (λ m. can_apply (all_ports_with ports m))
        (aax_channel_maps sdk.formats sdk.positions)

  abbrev pub has_midi : Option NotePorts → Bool
  has_midi notes = is_some (probe_all sdk notes true) || is_some (probe_all sdk notes false)

  -- One port, and the ports from an index on, all of which answer.
  map-append :
      (m : StemMap) (xs ys : List Request)
      → map (with_stem sdk m) (xs ++ ys) ≡ map (with_stem sdk m) xs ++ map (with_stem sdk m) ys
  map-append m [] ys = refl
  map-append m (x ∷ xs) ys = ap (◌∷◌ (with_stem sdk m x)) (map-append m xs ys)

  request_of-answers :
      (m : StemMap) (is_input : Bool) (i : ℕ) (answer : Option PortInfo)
      → is_some answer ≡ true
      → map (with_stem sdk m) (request_of is_input i answer) ≡ port_with m is_input i ∷ []
  unfolding with_stem
  request_of-answers m is_input i none h = ground (arith, h)
  request_of-answers m is_input i (some info) h = refl

  collect-answers :
      (ports : AudioPorts) (m : StemMap) (is_input : Bool) (n i : ℕ)
      → ((j : ℕ) → j < i + n → is_some (ports.get j true) ≡ true)
      → map (with_stem sdk m) (collect ports is_input n i) ≡ ports_with m is_input n i
  unfolding collect
  collect-answers ports m is_input zero i h = refl
  collect-answers ports m is_input (suc n) i h =
      map-append m (request_of is_input i (ports.get i true)) (collect ports is_input n (i + 1))
      ∙ ap₂ (λ (xs ys : List Request). xs ++ ys)
          (request_of-answers m is_input i (ports.get i true) (h i (omega arith)))
          (collect-answers ports m is_input n (i + 1) (λ j l. h j (omega (arith, l))))

  -- A format replaces what the one before it has written.
  pub with_stem-again :
      (m m' : StemMap) (requests : List Request)
      → map (with_stem sdk m) (map (with_stem sdk m') requests) ≡ map (with_stem sdk m) requests
  unfolding with_stem
  with_stem-again m m' [] = refl
  with_stem-again m m' (c ∷ requests) = ap (◌∷◌ (with_stem sdk m c)) (with_stem-again m m' requests)

  offered-accepted :
      (can_apply : List Request → Bool) (maps : List StemMap) (requests : List Request)
      (all : StemMap → List Request)
      → ((m : StemMap) → map (with_stem sdk m) requests ≡ all m)
      → offered sdk can_apply maps requests ≡ accepted (λ m. can_apply (all m)) maps
  unfolding offered
  offered-accepted can_apply [] requests all h = refl
  offered-accepted can_apply (m ∷ maps) requests all h =
      ap₂
        (λ (rs : List Request) (later : List StemFormatCombi).
          (if can_apply rs then combi_of sdk m ∷ [] else []) ++ later)
        (h m)
        (offered-accepted can_apply maps (map (with_stem sdk m) requests) all
          (λ m'. with_stem-again m' m requests ∙ h m'))

  abbrev found : Option Text → Option Text → List StemFormatCombi → PluginBusInfo
  found heard said formats =
      midi_out_found said (midi_in_found heard (record no_buses { stem_formats = formats }))

  with_placeholders-formats :
      (heard said : Option Text) (formats : List StemFormatCombi)
      → (with_placeholders sdk (found heard said formats)).stem_formats ≡ (
          if has_none formats && (is_some heard || is_some said) then placeholders sdk else formats)
  with_placeholders-formats none none [] = refl
  with_placeholders-formats none (some s) [] = refl
  with_placeholders-formats (some h) none [] = refl
  with_placeholders-formats (some h) (some s) [] = refl
  with_placeholders-formats none none (c ∷ cs) = refl
  with_placeholders-formats none (some s) (c ∷ cs) = refl
  with_placeholders-formats (some h) none (c ∷ cs) = refl
  with_placeholders-formats (some h) (some s) (c ∷ cs) = refl

  -- Of a plugin that the factory says nothing of, whose audio ports can be configured, answer for
  -- every input and have no more outputs than inputs, those formats of the table are recorded, in
  -- order, that the plugin accepts for all of its inputs and outputs; if there are none and a note
  -- port speaks MIDI, mono and stereo are recorded.
  pub get_available_bus_configs-accepted :
      (ports : AudioPorts) (can_apply : List Request → Bool) (notes : Option NotePorts)
      → ((i : ℕ) → i < ports.count true → is_some (ports.get i true) ≡ true)
      → ports.count false ≤ ports.count true
      → (get_available_bus_configs sdk none (configurable ports can_apply notes)).stem_formats ≡ (
          if has_none (accepted_by ports can_apply) && has_midi notes
          then placeholders sdk
          else accepted_by ports can_apply)
  unfolding get_available_bus_configs scan config_requests
  get_available_bus_configs-accepted ports can_apply notes answers few =
      with_placeholders-formats (probe_all sdk notes true) (probe_all sdk notes false)
        (offered sdk can_apply (aax_channel_maps sdk.formats sdk.positions) (config_requests ports))
      ∙ ap (λ formats. if has_none formats && has_midi notes then placeholders sdk else formats)
          (offered-accepted can_apply (aax_channel_maps sdk.formats sdk.positions)
            (config_requests ports) (all_ports_with ports)
            (λ m.
              map-append m (collect ports true (ports.count true) 0)
                (collect ports false (ports.count false) 0)
              ∙ ap₂ (λ (xs ys : List Request). xs ++ ys)
                  (collect-answers ports m true (ports.count true) 0
                    (λ j l. answers j (omega (arith, l))))
                  (collect-answers ports m false (ports.count false) 0
                    (λ j l. answers j (omega (arith, l, few))))))
