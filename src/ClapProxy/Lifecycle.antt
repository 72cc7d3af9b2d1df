-- ===== src/ClapProxy/Lifecycle.antt =====
-- `Clap::Plugin` of clap_wrapper_builder/clap-wrapper/src/clap_proxy.cpp and clap_proxy.h, from
-- createInstance to its destructor, used by one thread. A pointer to the plugin is whether it is not
-- null; a call through a null pointer is `none`. What the wrapper makes of the extensions is not part
-- of it.
pub mod Life
pub mod Lives
pub mod Refused
mod Tests
use wrac_plugin_template.Prelude.{
  ℕ, ◌+◌, ◌-◌, ◌%◌, ◌^◌, u32, Bool, true, false, not, ◌&&◌, ◌||◌, ltb, if◌then◌else◌, List, [], ◌∷◌,
  ◌++◌, map, Option, none, some,
}
use wrac_plugin_template.ClapProxy.Extensions.{
  ExtensionNames, ClapPluginExtensions, no_extensions, extensions_of, queries,
}

-- A sample rate is the number whose bits it has.
pub record AudioSetup : Type 0 where
  pub sample_rate : ℕ
  pub min_frames : ℕ
  pub max_frames : ℕ

-- What is called: functions of the plugin, of its extensions, and of the wrapper.
pub data Entry : Type 0 where
  init : Entry
  destroy : Entry
  get_extension : ℕ → Entry
  is_api_supported : Entry
  activate : AudioSetup → Entry
  deactivate : Entry
  start_processing : Entry
  stop_processing : Entry
  reset : Entry
  load : Entry
  save : Entry
  set_active : Bool → ℕ → Bool → Entry
  from_location : Entry
  setup_wrapper_specifics : Entry
  setup_audio_busses : Entry
  setup_midi_busses : Entry
  setup_parameters : Entry

-- A call, whether the pointer that it is given is not null, and what the thread check of the host
-- answers during it.
pub record Call : Type 0 where
  pub entry : Entry
  pub is_given : Bool
  pub on_main_thread : Bool
  pub on_audio_thread : Bool

-- What the factory and the plugin do.
pub record Hosted : Type 0 where
  pub is_created : Bool
  pub inits : Bool
  pub extension : ℕ → Option ℕ
  pub supports_api : Bool
  pub has_from_location : Bool

pub record Proxy : Type 0 where
  pub plugin : Bool
  pub ext : ClapPluginExtensions
  pub audio_setup : AudioSetup
  pub main_thread_override : ℕ
  pub audio_thread_override : ℕ
  pub calls : List Call

-- The calls on the object that a wrapper makes.
pub data Op : Type 0 where
  initializes : Op
  terminates : Op
  sets_sample_rate : ℕ → Op
  sets_block_sizes : ℕ → ℕ → Op
  sets_bus_activation : Bool → ℕ → Bool → Op
  loads : Op
  loads_preset : Op
  saves : Op
  activates : Op
  deactivates : Op
  starts_processing : Op
  stops_processing : Op
  resets : Op

abbrev pub asked_for_api : Option ℕ → List Entry
asked_for_api none = []
asked_for_api (some gui) = is_api_supported ∷ []

-- `is_main` says whether the thread is the one that made the object.
module _ (is_main : Bool) where
  abbrev pub is_main_thread : Proxy → Bool
  is_main_thread p = if ltb 0 p.main_thread_override then true else is_main

  abbrev pub is_audio_thread : Proxy → Bool
  is_audio_thread p = if ltb 0 p.audio_thread_override then true else not is_main

  abbrev pub call : Entry → Proxy → Proxy
  call e p = record p {
    calls =
        p.calls
        ++ record {
          entry = e;
          is_given = p.plugin;
          on_main_thread = is_main_thread p;
          on_audio_thread = is_audio_thread p;
        }
          ∷ [];
  }

  abbrev pub call_if : Option ℕ → Entry → Proxy → Proxy
  call_if none e p = p
  call_if (some ext) e p = call e p

  abbrev pub call_all : List Entry → Proxy → Proxy
  call_all [] p = p
  call_all (e ∷ es) p = call_all es (call e p)

  -- A call through the pointer to the plugin.
  abbrev pub dereference : (Proxy → Proxy) → Proxy → Option Proxy
  dereference f p = if p.plugin then some (f p) else none

  -- `AlwaysAudioThread`, and the end of the object that it gives.
  abbrev pub always_audio_thread : Proxy → Proxy
  always_audio_thread p = record p { audio_thread_override = u32 (p.audio_thread_override + 1) }

  abbrev pub audio_thread_ends : Proxy → Proxy
  audio_thread_ends p = record p {
    audio_thread_override = u32 (p.audio_thread_override + (2 ^ 32 - 1));
  }

  abbrev pub call_as_audio : Entry → Proxy → Proxy
  call_as_audio e p = audio_thread_ends (call e (always_audio_thread p))

  unfoldable pub connect_clap : ExtensionNames → Hosted → Proxy → Proxy
  connect_clap names h p =
      let made = call init (record p { plugin = true }) in
      if not h.inits
      then record (call destroy made) { plugin = false }
      else record (call_all
          (map get_extension (queries names h.extension h.supports_api)
            ++ asked_for_api (h.extension names.gui))
          made) { ext = extensions_of names h.extension h.supports_api }

  abbrev pub new_proxy : ℕ → Proxy
  new_proxy default_rate = record {
    plugin = false;
    ext = no_extensions;
    audio_setup = record { sample_rate = default_rate; min_frames = 0; max_frames = 0 };
    main_thread_override = 0;
    audio_thread_override = 0;
    calls = [];
  }

  -- `createInstance`; `none` where it returns null.
  abbrev pub create_instance : ExtensionNames → ℕ → Hosted → Option Proxy
  create_instance names default_rate h =
      if h.is_created then some (connect_clap names h (new_proxy default_rate)) else none

  abbrev pub initialize : Proxy → Proxy
  initialize p = call_if p.ext.params setup_parameters (
      call_if p.ext.noteports setup_midi_busses
        (call_if p.ext.audioports setup_audio_busses (call setup_wrapper_specifics p)))

  abbrev pub terminate : Proxy → Proxy
  terminate p = record (call destroy p) { plugin = false }

  abbrev pub supports_preset_load : Hosted → Proxy → Option ℕ
  supports_preset_load h p = if h.has_from_location then p.ext.preset_load else none

  unfoldable pub step : Hosted → Op → Proxy → Option Proxy
  step h initializes p = some (initialize p)
  step h terminates p = dereference terminate p
  step h (sets_sample_rate rate) p =
      some (record p { audio_setup = record p.audio_setup { sample_rate = rate } })
  step h (sets_block_sizes low high) p =
      some (record p { audio_setup = record p.audio_setup { min_frames = low; max_frames = high } })
  step h (sets_bus_activation is_input bus active) p =
      some (call_if p.ext.audio_ports_activation (set_active is_input bus active) p)
  step h loads p = some (call_if p.ext.state load p)
  step h loads_preset p = some (call_if (supports_preset_load h p) from_location p)
  step h saves p = some (call_if p.ext.state save p)
  step h activates p = dereference (call (activate p.audio_setup)) p
  step h deactivates p = dereference (call deactivate) p
  step h starts_processing p = dereference (call_as_audio start_processing) p
  step h stops_processing p = dereference (call_as_audio stop_processing) p
  step h resets p = dereference (call_as_audio reset) p

  abbrev pub bind : (Proxy → Option Proxy) → Option Proxy → Option Proxy
  bind f none = none
  bind f (some p) = f p

  pub run : Hosted → List Op → Proxy → Option Proxy
  unfolding step
  run h [] p = some p
  run h (op ∷ ops) p = bind (run h ops) (step h op p)

  -- The destructor.
  abbrev pub destruct : Proxy → Proxy
  destruct p = if p.plugin then record (call destroy p) { plugin = false } else p

  -- All calls of the life of an object; none where it was not made.
  abbrev pub calls_after : Option Proxy → Option (List Call)
  calls_after none = none
  calls_after (some p) = some (destruct p).calls

  abbrev pub calls_of : Hosted → List Op → Option Proxy → Option (List Call)
  calls_of h ops none = some []
  calls_of h ops (some p) = calls_after (run h ops p)

  unfoldable pub session : ExtensionNames → ℕ → Hosted → List Op → Option (List Call)
  unfolding connect_clap run
  session names default_rate h ops = calls_of h ops (create_instance names default_rate h)
