-- ===== src/Aax/AudioConfig/WellFormed.antt =====
-- What a plugin is asked about: ports that are mono, stereo, or surround with as many positions as
-- channels.
use wrac_plugin_template.Prelude.{
  ℕ, Bool, true, false, ◌==◌, if◌then◌else◌, List, [], ◌∷◌, ◌++◌, map, length, All, Option, none,
  some, ◌≡◌, refl, ap, ap₂, inl, inr, arith, Bool-cases,
}
use wrac_plugin_template.Aax.StemMaps.{StemFormats, StemMap, aax_channel_maps}
use wrac_plugin_template.Aax.AudioConfig.{
  config_requests, with_stem, combi_of, offered, probe_all, midi_in_found, midi_out_found,
  with_placeholders, no_buses, scan, get_available_bus_configs,
}
use wrac_plugin_template.Aax.Ports.{Sdk, AudioPorts, NotePorts, Request, StemFormatCombi, AaxInfo}
use wrac_plugin_template.Aax.AudioConfig.Offered.{configurable}

abbrev formats_in_order : StemFormats → List ℕ
formats_in_order f =
    f.mono ∷ f.stereo ∷ f.lcr ∷ f.lcrs ∷ f.quad ∷ f.stem_5_0 ∷ f.stem_5_1 ∷ f.stem_6_0 ∷ f.stem_6_1
    ∷ f.stem_7_0_sdds ∷ f.stem_7_1_sdds ∷ f.stem_7_0_dts ∷ f.stem_7_1_dts ∷ f.stem_7_0_2
    ∷ f.stem_7_1_2 ∷ f.stem_5_0_2 ∷ f.stem_5_1_2 ∷ f.stem_5_0_4 ∷ f.stem_5_1_4 ∷ f.stem_7_0_4
    ∷ f.stem_7_1_4 ∷ f.stem_7_0_6 ∷ f.stem_7_1_6 ∷ f.stem_9_0_4 ∷ f.stem_9_1_4 ∷ f.stem_9_0_6
    ∷ f.stem_9_1_6 ∷ []

abbrev pub documented_counts : List ℕ
documented_counts =
    1 ∷ 2 ∷ 3 ∷ 4 ∷ 4 ∷ 5 ∷ 6 ∷ 6 ∷ 7 ∷ 7 ∷ 8 ∷ 7 ∷ 8 ∷ 9 ∷ 10 ∷ 7 ∷ 8 ∷ 9 ∷ 10 ∷ 11 ∷ 12 ∷ 13 ∷ 14
    ∷ 13 ∷ 14 ∷ 15 ∷ 16 ∷ []

-- The macro of the SDK gives each format the channels that its name says.
abbrev pub HasChannelCounts : Sdk → Type 0
HasChannelCounts sdk = map sdk.channel_count (formats_in_order sdk.formats) ≡ documented_counts

pub data IsPort (sdk : Sdk) (c : Request) : Type 0 where
  mono :
      c.channel_count ≡ 1 → c.port_type ≡ some sdk.port_mono → c.port_details ≡ none → IsPort sdk c
  stereo :
      c.channel_count ≡ 2
      → c.port_type ≡ some sdk.port_stereo
      → c.port_details ≡ none
      → IsPort sdk c
  surround :
      (positions : List ℕ)
      → c.channel_count ≡ length positions
      → c.port_type ≡ some sdk.port_surround
      → c.port_details ≡ some positions
      → IsPort sdk c

abbrev first_of : List ℕ → ℕ
first_of [] = 0
first_of (x ∷ xs) = x

abbrev rest_of : List ℕ → List ℕ
rest_of [] = []
rest_of (x ∷ xs) = xs

All-equal :
    (f g : StemMap → ℕ) (maps : List StemMap) → map f maps ≡ map g maps → All (λ m. f m ≡ g m) maps
All-equal f g [] h = tt
All-equal f g (m ∷ maps) h = (ap first_of h, All-equal f g maps (ap rest_of h))

module _ (sdk : Sdk) where
  abbrev FitsMap : StemMap → Type 0
  FitsMap m = sdk.channel_count m.aax_stem_format ≡ length m.clap_map

  aax_channel_maps-FitsMap :
      HasChannelCounts sdk → All FitsMap (aax_channel_maps sdk.formats sdk.positions)
  unfolding aax_channel_maps
  aax_channel_maps-FitsMap h =
      All-equal (λ m. sdk.channel_count m.aax_stem_format) (λ m. length m.clap_map)
        (aax_channel_maps sdk.formats sdk.positions) h

  with_stem-IsPort : (m : StemMap) (c : Request) → FitsMap m → IsPort sdk (with_stem sdk m c)
  unfolding with_stem
  with_stem-IsPort m c fits = elim (Bool-cases (n == 1)) [
    | inl e ↦ mono (ground (arith, e)) (rw e refl) (rw e refl)
    | inr e ↦ elim (Bool-cases (n == 2)) [
      | inl e2 ↦ stereo (ground (arith, e2)) (rw (e, e2) refl) (rw (e, e2) refl)
      | inr e2 ↦ surround m.clap_map fits (rw (e, e2) refl) (rw (e, e2) refl)
    ]
  ]
    where
      n : ℕ
      n = sdk.channel_count m.aax_stem_format

  map-ArePorts :
      (m : StemMap)
      → FitsMap m
      → (requests : List Request) → All (IsPort sdk) (map (with_stem sdk m) requests)
  map-ArePorts m fits [] = tt
  map-ArePorts m fits (c ∷ requests) = (with_stem-IsPort m c fits, map-ArePorts m fits requests)

  -- Two plugins that answer alike for well-formed ports are offered alike.
  module _ (can_apply can_apply' : List Request → Bool)
      (alike : (requests : List Request)
        → All (IsPort sdk) requests
        → can_apply requests ≡ can_apply' requests) where
    offered-alike :
        (maps : List StemMap)
        → All FitsMap maps
        → (requests : List Request)
        → offered sdk can_apply maps requests ≡ offered sdk can_apply' maps requests
    unfolding offered
    offered-alike [] fits requests = refl
    offered-alike (m ∷ maps) fits requests =
        let requests' = map (with_stem sdk m) requests in
        ap₂
          (λ (b : Bool) (later : List StemFormatCombi).
            (if b then combi_of sdk m ∷ [] else []) ++ later)
          (alike requests' (map-ArePorts m fits.0 requests)) (offered-alike maps fits.1 requests')

  -- Where the SDK's formats have the channels that their names say, a plugin is never asked about a
  -- port that is not mono, stereo, or surround with as many positions as channels: two plugins that
  -- answer alike for such ports, whatever they answer for others, get the same configurations.
  pub get_available_bus_configs-IsPort :
      (info : Option AaxInfo) (ports : AudioPorts) (can_apply can_apply' : List Request → Bool)
      (notes : Option NotePorts)
      → HasChannelCounts sdk
      → ((requests : List Request)
          → All (IsPort sdk) requests
          → can_apply requests ≡ can_apply' requests)
      → get_available_bus_configs sdk info (configurable ports can_apply notes)
        ≡ get_available_bus_configs sdk info (configurable ports can_apply' notes)
  unfolding get_available_bus_configs scan
  get_available_bus_configs-IsPort (some info) ports can_apply can_apply' notes counts alike = refl
  get_available_bus_configs-IsPort none ports can_apply can_apply' notes counts alike =
      ap
        (λ formats. with_placeholders sdk (
          midi_out_found (probe_all sdk notes false) (
            midi_in_found (probe_all sdk notes true) (record no_buses { stem_formats = formats }))))
        (offered-alike can_apply can_apply' alike (aax_channel_maps sdk.formats sdk.positions)
          (aax_channel_maps-FitsMap counts) (config_requests ports))
