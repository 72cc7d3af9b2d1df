-- ===== src/Aax/Ports.antt =====
-- What the SDKs, the plugin and audioconfig.h of clap_wrapper_builder/clap-wrapper/src/detail/aax say
-- of the ports of a plugin.
use wrac_plugin_template.Prelude.{ℕ, Bool, List, Option}
use wrac_plugin_template.Prelude.Text.{Text}
use wrac_plugin_template.Vst3.ChannelMap.{Positions}
use wrac_plugin_template.Aax.StemMaps.{StemFormats}

-- `channel_count` is the macro `AAX_STEM_FORMAT_CHANNEL_COUNT`, `decimal` the number as `fmt` prints
-- it, and `unset` what the channel count of a structure is that nothing was written to.
pub record Sdk : Type 0 where
  pub formats : StemFormats
  pub positions : Positions
  pub channel_count : ℕ → ℕ
  pub port_mono : Text
  pub port_stereo : Text
  pub port_surround : Text
  pub dialect_midi : ℕ
  pub decimal : ℕ → Text
  pub unset : ℕ

pub record PortInfo : Type 0 where
  pub channel_count : ℕ
  pub port_type : Option Text

-- `get` is `none` where it returns false; its second argument says whether an input is asked for.
pub record AudioPorts : Type 0 where
  pub count : Bool → ℕ
  pub get : ℕ → Bool → Option PortInfo

pub record NotePortInfo : Type 0 where
  pub supported_dialects : ℕ
  pub name : Text

pub record NotePorts : Type 0 where
  pub count : Bool → ℕ
  pub get : ℕ → Bool → Option NotePortInfo

-- `clap_audio_port_configuration_request`
pub record Request : Type 0 where
  pub is_input : Bool
  pub port_index : ℕ
  pub channel_count : ℕ
  pub port_type : Option Text
  pub port_details : Option (List ℕ)

-- `stemformat_combi_t`
pub record StemFormatCombi : Type 0 where
  pub name : Text
  pub format_in : ℕ
  pub format_out : ℕ
  pub plugin_id : ℕ

pub record PluginBusInfo : Type 0 where
  pub stem_formats : List StemFormatCombi
  pub has_midi_in : Bool
  pub has_midi_out : Bool
  pub midi_in_name : Text
  pub midi_out_name : Text

-- What the factory for AAX says of a plugin, and the extensions of the plugin itself.
pub record AaxInfo : Type 0 where
  pub stem_configs : List StemFormatCombi
  pub midi_in_name : Option Text
  pub midi_out_name : Option Text

pub record Plugin : Type 0 where
  pub audio_ports : Option AudioPorts
  pub can_apply_configuration : Option (List Request → Bool)
  pub note_ports : Option NotePorts
