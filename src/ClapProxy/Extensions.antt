-- ===== src/ClapProxy/Extensions.antt =====
-- What `connectClap` of clap_wrapper_builder/clap-wrapper/src/clap_proxy.cpp asks of a plugin on Linux.
-- A pointer is a number, and the null pointer `none`.
use wrac_plugin_template.Prelude.{ℕ, Bool, if◌then◌else◌, List, [], ◌∷◌, ◌++◌, Option, none, some}

-- The names of the extensions, which are constants of the headers.
pub record ExtensionNames : Type 0 where
  pub state : ℕ
  pub params : ℕ
  pub audio_ports : ℕ
  pub configurable_audio_ports : ℕ
  pub configurable_audio_ports_compat : ℕ
  pub surround : ℕ
  pub surround_compat : ℕ
  pub ambisonic : ℕ
  pub ambisonic_compat : ℕ
  pub audio_ports_activation : ℕ
  pub audio_ports_activation_compat : ℕ
  pub note_ports : ℕ
  pub latency : ℕ
  pub render : ℕ
  pub tail : ℕ
  pub gui : ℕ
  pub timer_support : ℕ
  pub track_info : ℕ
  pub ara : ℕ
  pub context_menu : ℕ
  pub context_menu_compat : ℕ
  pub gain_adjustment_metering : ℕ
  pub preset_load : ℕ
  pub preset_load_compat : ℕ
  pub auv2_param_ordering : ℕ
  pub standalone_features : ℕ
  pub posix_fd_support : ℕ

pub record ClapPluginExtensions : Type 0 where
  pub state : Option ℕ
  pub params : Option ℕ
  pub audioports : Option ℕ
  pub configurable_audio_ports : Option ℕ
  pub surround : Option ℕ
  pub ambisonic : Option ℕ
  pub audio_ports_activation : Option ℕ
  pub noteports : Option ℕ
  pub latency : Option ℕ
  pub render : Option ℕ
  pub tail : Option ℕ
  pub gui : Option ℕ
  pub timer : Option ℕ
  pub trackinfo : Option ℕ
  pub ara : Option ℕ
  pub contextmenu : Option ℕ
  pub gainreduc : Option ℕ
  pub preset_load : Option ℕ
  pub auv2_param_ordering : Option ℕ
  pub standalone_features : Option ℕ
  pub posixfd : Option ℕ

abbrev pub no_extensions : ClapPluginExtensions
no_extensions = record {
  state = none;
  params = none;
  audioports = none;
  configurable_audio_ports = none;
  surround = none;
  ambisonic = none;
  audio_ports_activation = none;
  noteports = none;
  latency = none;
  render = none;
  tail = none;
  gui = none;
  timer = none;
  trackinfo = none;
  ara = none;
  contextmenu = none;
  gainreduc = none;
  preset_load = none;
  auv2_param_ordering = none;
  standalone_features = none;
  posixfd = none;
}

abbrev pub or_compat : Option ℕ → Option ℕ → Option ℕ
or_compat none compat = compat
or_compat (some p) compat = some p

abbrev pub asks_compat : Option ℕ → ℕ → List ℕ
asks_compat none compat = compat ∷ []
asks_compat (some p) compat = []

module _ (names : ExtensionNames) (get_extension : ℕ → Option ℕ) (is_api_supported : Bool) where
  -- What is kept; a user interface for another kind of window is not.
  abbrev pub gui_of : Option ℕ → Option ℕ
  gui_of none = none
  gui_of (some gui) = if is_api_supported then some gui else none

  abbrev pub extensions_of : ClapPluginExtensions
  extensions_of = record {
    state = get_extension names.state;
    params = get_extension names.params;
    audioports = get_extension names.audio_ports;
    configurable_audio_ports =
        or_compat (get_extension names.configurable_audio_ports)
          (get_extension names.configurable_audio_ports_compat);
    surround = or_compat (get_extension names.surround) (get_extension names.surround_compat);
    ambisonic = or_compat (get_extension names.ambisonic) (get_extension names.ambisonic_compat);
    audio_ports_activation =
        or_compat (get_extension names.audio_ports_activation)
          (get_extension names.audio_ports_activation_compat);
    noteports = get_extension names.note_ports;
    latency = get_extension names.latency;
    render = get_extension names.render;
    tail = get_extension names.tail;
    gui = gui_of (get_extension names.gui);
    timer = get_extension names.timer_support;
    trackinfo = get_extension names.track_info;
    ara = get_extension names.ara;
    contextmenu =
        or_compat (get_extension names.context_menu) (get_extension names.context_menu_compat);
    gainreduc = get_extension names.gain_adjustment_metering;
    preset_load =
        or_compat (get_extension names.preset_load) (get_extension names.preset_load_compat);
    auv2_param_ordering = get_extension names.auv2_param_ordering;
    standalone_features = get_extension names.standalone_features;
    posixfd = get_extension names.posix_fd_support;
  }

  -- The names that are asked for, in order.
  abbrev pub queries : List ℕ
  queries =
      (names.state ∷ names.params ∷ names.audio_ports ∷ names.configurable_audio_ports ∷ [])
      ++ (asks_compat (get_extension names.configurable_audio_ports)
          names.configurable_audio_ports_compat)
      ++ (names.surround ∷ [])
      ++ (asks_compat (get_extension names.surround) names.surround_compat)
      ++ (names.ambisonic ∷ [])
      ++ (asks_compat (get_extension names.ambisonic) names.ambisonic_compat)
      ++ (names.audio_ports_activation ∷ [])
      ++ (asks_compat (get_extension names.audio_ports_activation)
          names.audio_ports_activation_compat)
      ++ (names.note_ports ∷ names.latency ∷ names.render ∷ names.tail ∷ names.gui
          ∷ names.timer_support ∷ names.track_info ∷ names.ara ∷ names.context_menu ∷ [])
      ++ (asks_compat (get_extension names.context_menu) names.context_menu_compat)
      ++ (names.gain_adjustment_metering ∷ names.preset_load ∷ [])
      ++ (asks_compat (get_extension names.preset_load) names.preset_load_compat)
      ++ (names.auv2_param_ordering ∷ names.standalone_features ∷ names.posix_fd_support ∷ [])
