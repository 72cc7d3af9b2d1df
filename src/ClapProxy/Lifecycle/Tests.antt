-- ===== src/ClapProxy/Lifecycle/Tests.antt =====
-- A plugin with a state, an older context menu and a user interface for another kind of window, and
-- one that does not initialize.
use wrac_plugin_template.Prelude.{
  true, false, ◌==◌, ◌||◌, if◌then◌else◌, List, [], ◌∷◌, ◌++◌, map, none, some, ◌≡◌, refl,
}
use wrac_plugin_template.ClapProxy.Extensions.{ExtensionNames}
use wrac_plugin_template.ClapProxy.Lifecycle.{
  Entry, init, destroy, activate, start_processing, stop_processing, load, save,
  setup_wrapper_specifics, Hosted, Op, initializes, terminates, sets_sample_rate, sets_block_sizes,
  loads, saves, activates, starts_processing, stops_processing, connect_clap, step, run, session,
}
use wrac_plugin_template.ClapProxy.Lifecycle.Life.{live, first_entries}
use wrac_plugin_template.ClapProxy.Lifecycle.Lives.{session-live}
use wrac_plugin_template.ClapProxy.Lifecycle.Refused.{null_call, session-refused}

abbrev names : ExtensionNames
names = record {
  state = 0;
  params = 1;
  audio_ports = 2;
  configurable_audio_ports = 3;
  configurable_audio_ports_compat = 4;
  surround = 5;
  surround_compat = 6;
  ambisonic = 7;
  ambisonic_compat = 8;
  audio_ports_activation = 9;
  audio_ports_activation_compat = 10;
  note_ports = 11;
  latency = 12;
  render = 13;
  tail = 14;
  gui = 15;
  timer_support = 16;
  track_info = 17;
  ara = 18;
  context_menu = 19;
  context_menu_compat = 20;
  gain_adjustment_metering = 21;
  preset_load = 22;
  preset_load_compat = 23;
  auv2_param_ordering = 24;
  standalone_features = 25;
  posix_fd_support = 26;
}

abbrev hosted : Hosted
hosted = record {
  is_created = true;
  inits = true;
  extension = λ name. if name == 0 || (name == 15 || name == 20) then some name else none;
  supports_api = false;
  has_from_location = false;
}

abbrev use_it : List Op
use_it =
    initializes
    ∷ loads
    ∷ sets_sample_rate 48
    ∷ sets_block_sizes 1 64
    ∷ activates
    ∷ starts_processing
    ∷ stops_processing
    ∷ saves
    ∷ []

abbrev later_entries : List Entry
later_entries =
    setup_wrapper_specifics
    ∷ load
    ∷ activate (record { sample_rate = 48; min_frames = 1; max_frames = 64 })
    ∷ start_processing
    ∷ stop_processing
    ∷ save
    ∷ destroy
    ∷ []

abbrev failing : Hosted
failing = record hosted { inits = false }

abbrev not_created : Hosted
not_created = record hosted { is_created = false }

session-none : session true names 44 not_created use_it ≡ some []
unfolding session run
session-none = refl

session-twice : session true names 44 hosted (terminates ∷ terminates ∷ []) ≡ none
unfolding session connect_clap run step
session-twice = refl

session-live_example :
    session true names 44 hosted (
      initializes
      ∷ loads
      ∷ sets_sample_rate 48
      ∷ sets_block_sizes 1 64
      ∷ activates
      ∷ starts_processing
      ∷ stops_processing
      ∷ saves
      ∷ terminates
      ∷ [])
    ≡ some (map (live true) (init ∷ (first_entries names hosted ++ later_entries)))
session-live_example = session-live true names 44 hosted use_it true refl refl refl

session-refused_example :
    session true names 44 failing (initializes ∷ saves ∷ loads ∷ [])
    ≡ some (live true init ∷ live true destroy ∷ null_call true setup_wrapper_specifics ∷ [])
session-refused_example =
    session-refused true names 44 failing (initializes ∷ saves ∷ loads ∷ []) refl refl

-- A plugin that does not initialize is activated through the null pointer.
session-activate : session true names 44 failing (initializes ∷ activates ∷ []) ≡ none
unfolding session connect_clap run step
session-activate = refl
