-- ===== src/ClapProxy/Lifecycle/Life.antt =====
-- What is called in the life of an object whose plugin is created and initializes.
use wrac_plugin_template.Prelude.{
  ℕ, Bool, true, false, not, ◌&&◌, ◌||◌, if◌then◌else◌, List, [], ◌∷◌, ◌++◌, map, Option, none,
  some,
}
use wrac_plugin_template.ClapProxy.Extensions.{
  ExtensionNames, ClapPluginExtensions, extensions_of, queries,
}
use wrac_plugin_template.ClapProxy.Lifecycle.{
  AudioSetup, Entry, init, destroy, get_extension, is_api_supported, activate, deactivate,
  start_processing, stop_processing, reset, load, save, set_active, from_location,
  setup_wrapper_specifics, setup_audio_busses, setup_midi_busses, setup_parameters, Call, Hosted,
  Op, initializes, terminates, sets_sample_rate, sets_block_sizes, sets_bus_activation, loads,
  loads_preset, saves, activates, deactivates, starts_processing, stops_processing, resets,
  asked_for_api,
}

-- What a plugin may only be called with as audio thread.
abbrev pub for_audio : Entry → Bool
for_audio start_processing = true
for_audio stop_processing = true
for_audio reset = true
for_audio init = false
for_audio destroy = false
for_audio (get_extension name) = false
for_audio is_api_supported = false
for_audio (activate a) = false
for_audio deactivate = false
for_audio load = false
for_audio save = false
for_audio (set_active is_input bus active) = false
for_audio from_location = false
for_audio setup_wrapper_specifics = false
for_audio setup_audio_busses = false
for_audio setup_midi_busses = false
for_audio setup_parameters = false

-- A call with a plugin that lives.
abbrev pub live : Bool → Entry → Call
live is_main e = record {
  entry = e;
  is_given = true;
  on_main_thread = is_main;
  on_audio_thread = for_audio e || not is_main;
}

abbrev pub if_some : Option ℕ → Entry → List Entry
if_some none e = []
if_some (some p) e = e ∷ []

-- The audio setup after an operation, and what is called for it.
abbrev pub setup_after : Op → AudioSetup → AudioSetup
setup_after (sets_sample_rate rate) a = record a { sample_rate = rate }
setup_after (sets_block_sizes low high) a = record a { min_frames = low; max_frames = high }
setup_after op a = a

abbrev pub entries_of : ClapPluginExtensions → Hosted → Op → AudioSetup → List Entry
entries_of ext h initializes a =
    setup_wrapper_specifics
    ∷ (if_some ext.audioports setup_audio_busses
        ++ (if_some ext.noteports setup_midi_busses ++ if_some ext.params setup_parameters))
entries_of ext h terminates a = []
entries_of ext h (sets_sample_rate rate) a = []
entries_of ext h (sets_block_sizes low high) a = []
entries_of ext h (sets_bus_activation is_input bus active) a =
    if_some ext.audio_ports_activation (set_active is_input bus active)
entries_of ext h loads a = if_some ext.state load
entries_of ext h loads_preset a =
    if h.has_from_location then if_some ext.preset_load from_location else []
entries_of ext h saves a = if_some ext.state save
entries_of ext h activates a = activate a ∷ []
entries_of ext h deactivates a = deactivate ∷ []
entries_of ext h starts_processing a = start_processing ∷ []
entries_of ext h stops_processing a = stop_processing ∷ []
entries_of ext h resets a = reset ∷ []

abbrev pub entries_of_all : ClapPluginExtensions → Hosted → List Op → AudioSetup → List Entry
entries_of_all ext h [] a = []
entries_of_all ext h (op ∷ ops) a =
    entries_of ext h op a ++ entries_of_all ext h ops (setup_after op a)

abbrev pub setup_after_all : List Op → AudioSetup → AudioSetup
setup_after_all [] a = a
setup_after_all (op ∷ ops) a = setup_after_all ops (setup_after op a)

abbrev pub is_terminate : Op → Bool
is_terminate terminates = true
is_terminate op = false

abbrev pub never_terminates : List Op → Bool
never_terminates [] = true
never_terminates (op ∷ ops) = not (is_terminate op) && never_terminates ops

abbrev pub and_terminates : Bool → List Op → List Op
and_terminates ends [] = if ends then terminates ∷ [] else []
and_terminates ends (op ∷ ops) = op ∷ and_terminates ends ops

abbrev pub first_entries : ExtensionNames → Hosted → List Entry
first_entries names h =
    map get_extension (queries names h.extension h.supports_api)
    ++ asked_for_api (h.extension names.gui)

abbrev pub first_setup : ℕ → AudioSetup
first_setup default_rate = record { sample_rate = default_rate; min_frames = 0; max_frames = 0 }

abbrev pub life_of : ExtensionNames → ℕ → Hosted → List Op → List Entry
life_of names default_rate h ops =
    init
    ∷ (first_entries names h
        ++ (entries_of_all (extensions_of names h.extension h.supports_api) h ops
              (first_setup default_rate)
            ++ destroy ∷ []))
