-- ===== src/Aax/AudioConfig.antt =====
-- `getAvailableBusConfigs` of clap_wrapper_builder/clap-wrapper/src/detail/aax/audioconfig.cpp, with
-- the types of audioconfig.h: the stem formats and the MIDI ports of a plugin that the factory
-- creates and that throws nothing. The plugin answers a question the same way each time. The
-- constants and macros of the SDKs and the formatting of numbers are parameters.
pub mod Offered
pub mod WellFormed
mod Tests
use wrac_plugin_template.Prelude.{
  ℕ, zero, suc, ◌+◌, bit_and, Bool, true, false, not, ◌&&◌, ◌||◌, ◌==◌, ltb, if◌then◌else◌, List,
  [], ◌∷◌, ◌++◌, map, Option, none, some,
}
use wrac_plugin_template.Prelude.Text.{Text}
use wrac_plugin_template.Vst3.ChannelMap.{Positions}
use wrac_plugin_template.Aax.StemMaps.{StemFormats, StemMap, aax_channel_maps}
use wrac_plugin_template.Aax.Ports.{
  AaxInfo, AudioPorts, NotePortInfo, NotePorts, Plugin, PluginBusInfo, PortInfo, Request, Sdk,
  StemFormatCombi,
}

abbrev pub no_buses : PluginBusInfo
no_buses = record {
  stem_formats = [];
  has_midi_in = false;
  has_midi_out = false;
  midi_in_name = [];
  midi_out_name = [];
}

abbrev pub midi_in_found : Option Text → PluginBusInfo → PluginBusInfo
midi_in_found none r = r
midi_in_found (some name) r = record r { has_midi_in = true; midi_in_name = name }

abbrev pub midi_out_found : Option Text → PluginBusInfo → PluginBusInfo
midi_out_found none r = r
midi_out_found (some name) r = record r { has_midi_out = true; midi_out_name = name }

abbrev pub from_aax_info : AaxInfo → PluginBusInfo
from_aax_info info =
    midi_out_found info.midi_out_name
      (midi_in_found info.midi_in_name (record no_buses { stem_formats = info.stem_configs }))

-- The loops that collect the ports: `n` ports from index `i` on. Both ask for an input.
abbrev pub request_of : Bool → ℕ → Option PortInfo → List Request
request_of is_input i none = []
request_of is_input i (some info) =
    record {
      is_input = is_input;
      port_index = i;
      channel_count = info.channel_count;
      port_type = info.port_type;
      port_details = none;
    }
    ∷ []

unfoldable pub collect : AudioPorts → Bool → ℕ → ℕ → List Request
collect ports is_input zero i = []
collect ports is_input (suc n) i =
    request_of is_input i (ports.get i true) ++ collect ports is_input n (i + 1)

unfoldable pub config_requests : AudioPorts → List Request
unfolding collect
config_requests ports =
    collect ports true (ports.count true) 0 ++ collect ports false (ports.count false) 0

-- What a structure holds after an answer.
abbrev pub channels_of : Option PortInfo → ℕ → ℕ
channels_of none old = old
channels_of (some info) old = info.channel_count

-- "Mono" and "Stereo"
abbrev pub mono : Text
mono = 0x4D ∷ 0x6F ∷ 0x6E ∷ 0x6F ∷ []

abbrev pub stereo : Text
stereo = 0x53 ∷ 0x74 ∷ 0x65 ∷ 0x72 ∷ 0x65 ∷ 0x6F ∷ []

abbrev pub name_of_channels : ℕ → Text → Text
name_of_channels n after = if n == 1 then mono ++ after else if n == 2 then stereo ++ after else []

abbrev pub or_later : Option Text → Option Text → Option Text
or_later none later = later
or_later (some name) later = some name

abbrev pub has_none : List StemFormatCombi → Bool
has_none [] = true
has_none (c ∷ cs) = false

module _ (sdk : Sdk) where
  -- What the loop over the requests makes of one.
  unfoldable pub with_stem : StemMap → Request → Request
  with_stem m c =
      let n = sdk.channel_count m.aax_stem_format in
      record c {
        channel_count = n;
        port_type = some (
            if n == 1
            then sdk.port_mono
            else if n == 2
            then sdk.port_stereo
            else sdk.port_surround);
        port_details = if n == 1 || n == 2 then none else some m.clap_map;
      }

  abbrev pub combi_of : StemMap → StemFormatCombi
  combi_of m = record {
    name = sdk.decimal m.aax_stem_format ++ 0x2F ∷ sdk.decimal m.aax_stem_format;
    format_in = m.aax_stem_format;
    format_out = m.aax_stem_format;
    plugin_id = 0;
  }

  -- The loop over the table, which changes the requests in place.
  unfoldable pub offered :
      (List Request → Bool) → List StemMap → List Request → List StemFormatCombi
  unfolding with_stem
  offered can_apply [] requests = []
  offered can_apply (m ∷ maps) requests =
      let requests' = map (with_stem m) requests in
      (if can_apply requests' then combi_of m ∷ [] else []) ++ offered can_apply maps requests'

  -- The fallback: the channels of the first output stand for both directions.
  abbrev pub stem_of_channels : ℕ → ℕ
  stem_of_channels n = if n == 1 then sdk.formats.mono else if n == 2 then sdk.formats.stereo else 0

  unfoldable pub fallback : AudioPorts → List StemFormatCombi
  fallback ports =
      let has_in = ltb 0 (ports.count true) in
      let has_out = ltb 0 (ports.count false) in
      let p_in = if has_in then channels_of (ports.get 0 false) sdk.unset else sdk.unset in
      let p_out = channels_of (ports.get 0 false) p_in in
      if has_in || has_out
      then record {
        name =
            (if has_in then name_of_channels p_in (0x2F ∷ []) else [])
            ++ (if has_out then name_of_channels p_out [] else []);
        format_in = if has_in then stem_of_channels p_in else 0;
        format_out = if has_out then stem_of_channels p_out else 0;
        plugin_id = 0;
      }
        ∷ []
      else []

  abbrev pub configurable_formats : AudioPorts → Option (List Request → Bool) → List StemFormatCombi
  configurable_formats ports none = fallback ports
  configurable_formats ports (some can_apply) =
      offered can_apply (aax_channel_maps sdk.formats sdk.positions) (config_requests ports)

  abbrev pub audio_formats : Plugin → Option AudioPorts → List StemFormatCombi
  audio_formats plugin none = []
  audio_formats plugin (some ports) = configurable_formats ports plugin.can_apply_configuration

  -- The first of `n` note ports from index `i` on that speaks MIDI.
  abbrev pub speaks_midi : Option NotePortInfo → Option Text
  speaks_midi none = none
  speaks_midi (some info) =
      if bit_and info.supported_dialects sdk.dialect_midi == 0 then none else some info.name

  unfoldable pub probe : NotePorts → Bool → ℕ → ℕ → Option Text
  probe ports is_input zero i = none
  probe ports is_input (suc n) i =
      or_later (speaks_midi (ports.get i is_input)) (probe ports is_input n (i + 1))

  abbrev pub probe_all : Option NotePorts → Bool → Option Text
  unfolding probe
  probe_all none is_input = none
  probe_all (some ports) is_input = probe ports is_input (ports.count is_input) 0

  abbrev pub placeholders : List StemFormatCombi
  placeholders =
      record {
        name = mono;
        format_in = sdk.formats.mono;
        format_out = sdk.formats.mono;
        plugin_id = 0;
      }
      ∷ record {
        name = stereo;
        format_in = sdk.formats.stereo;
        format_out = sdk.formats.stereo;
        plugin_id = 0;
      }
      ∷ []

  abbrev pub with_placeholders : PluginBusInfo → PluginBusInfo
  with_placeholders r =
      if has_none r.stem_formats && (r.has_midi_in || r.has_midi_out)
      then record r { stem_formats = placeholders }
      else r

  unfoldable pub scan : Plugin → PluginBusInfo
  unfolding fallback offered config_requests aax_channel_maps
  scan plugin = with_placeholders (
      midi_out_found (probe_all plugin.note_ports false) (
        midi_in_found (probe_all plugin.note_ports true)
          (record no_buses { stem_formats = audio_formats plugin plugin.audio_ports })))

  unfoldable pub get_available_bus_configs : Option AaxInfo → Plugin → PluginBusInfo
  unfolding scan
  get_available_bus_configs none plugin = scan plugin
  get_available_bus_configs (some info) plugin = from_aax_info info
