-- ===== src/Presets/Receiver/Tests.antt =====
-- A file with calls before the first preset, a preset of another plugin, and one that names both.
use wrac_plugin_template.Prelude.{List, [], ◌∷◌, none, some, ◌≡◌, refl}
use wrac_plugin_template.Prelude.Text.{Text, same}
use wrac_plugin_template.Presets.{PresetEntry}
use wrac_plugin_template.Presets.Receiver.{
  Call, on_error, begin_preset, add_plugin_id, set_soundpack_id, set_flags, add_creator,
  set_description, set_timestamps, add_feature, add_extra_info, Receiver, clap_abi, amend, receive,
  receive_all, kept, finish_file,
}
use wrac_plugin_template.Presets.Receiver.Groups.{details}
use wrac_plugin_template.Presets.Receiver.Collects.{finish_file-Collects}

abbrev plugin : Text
plugin = 5 ∷ []

abbrev receiver : Receiver
receiver = record {
  location_kind = 0;
  location = 0x61 ∷ [];
  location_flags = 3;
  plugin_id = plugin;
  timestamp_unknown = 0;
  collected = [];
  pending = [];
}

abbrev calls : List Call
calls =
    add_creator (some (1 ∷ []))
    ∷ begin_preset (some (2 ∷ [])) none
    ∷ add_plugin_id (some (some clap_abi, some (6 ∷ [])))
    ∷ begin_preset (some (3 ∷ [])) (some (4 ∷ []))
    ∷ add_plugin_id (some (some clap_abi, some (6 ∷ [])))
    ∷ add_plugin_id (some (some clap_abi, some plugin))
    ∷ add_plugin_id (some (none, some plugin))
    ∷ add_creator (some (8 ∷ []))
    ∷ add_creator none
    ∷ add_creator (some [])
    ∷ add_creator (some (9 ∷ []))
    ∷ set_description (some (10 ∷ []))
    ∷ set_description none
    ∷ add_extra_info
    ∷ set_timestamps 11 12
    ∷ begin_preset none none
    ∷ set_flags 1
    ∷ on_error
    ∷ set_soundpack_id (some (13 ∷ []))
    ∷ set_soundpack_id (some (14 ∷ []))
    ∷ add_feature (some (15 ∷ []))
    ∷ []

abbrev collected : List PresetEntry
collected =
    record {
      location_kind = 0;
      location = 0x61 ∷ [];
      load_key = 4 ∷ [];
      name = 3 ∷ [];
      collection_id = [];
      description = 10 ∷ [];
      creators = (8 ∷ []) ∷ (9 ∷ []) ∷ [];
      features = [];
      flags = 3;
      creation_time = 11;
      modification_time = 12;
    }
    ∷ record {
      location_kind = 0;
      location = 0x61 ∷ [];
      load_key = [];
      name = [];
      collection_id = 14 ∷ [];
      description = [];
      creators = [];
      features = (15 ∷ []) ∷ [];
      flags = 1;
      creation_time = 0;
      modification_time = 0;
    }
    ∷ []

finish_file-calls : (finish_file (receive_all receiver calls)).collected ≡ collected
unfolding finish_file receive amend kept same
finish_file-calls = refl

finish_file-Collects_example : (finish_file (receive_all receiver calls)).collected ≡ collected
unfolding details same
finish_file-Collects_example = finish_file-Collects receiver calls
