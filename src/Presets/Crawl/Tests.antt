-- ===== src/Presets/Crawl/Tests.antt =====
-- A plugin with a preset in itself and two in the folder "d", with a file of another kind, a file
-- that is too deep and an error of the iteration, and a provider that does not start.
use wrac_plugin_template.Prelude.{ℕ, true, false, List, [], ◌∷◌, none, some, ◌≡◌, refl}
use wrac_plugin_template.Prelude.Text.{Text, same}
use wrac_plugin_template.Presets.{PresetEntry, text_less, entry_less, insert, sorted}
use wrac_plugin_template.Presets.Receiver.{begin_preset, amend, receive, kept, finish_file}
use wrac_plugin_template.Presets.Receiver.Groups.{details}
use wrac_plugin_template.Presets.Declarations.{
  Kinds, filetype, location, to_lower, normalize_extension, declare_filetype, recorded_place,
  declare_location, declares, matches_extension,
}
use wrac_plugin_template.Presets.Crawl.{
  unread, entry, FileSystem, Provider, read_file, crawl_directory, crawl_location, crawl_locations,
  collected_of, crawl_providers, crawl,
}
use wrac_plugin_template.Presets.Crawl.Indexed.{crawl-Indexes}

abbrev kinds : Kinds
kinds = record { file = 0; plugin = 1 }

abbrev files : FileSystem
files = record {
  is_regular_file = λ path. false;
  is_directory = λ path. same path (0x64 ∷ []);
  walk = λ path.
      entry 0 true (0x2E ∷ 0x46 ∷ []) (3 ∷ [])
      ∷ unread
      ∷ entry 0 true (0x2E ∷ 0x67 ∷ []) (4 ∷ [])
      ∷ entry 9 true (0x2E ∷ 0x66 ∷ []) (5 ∷ [])
      ∷ entry 8 true (0x2E ∷ 0x66 ∷ []) (2 ∷ [])
      ∷ [];
}

abbrev provider : Provider
provider = record {
  has_id = true;
  is_compatible = true;
  is_created = true;
  inits = true;
  declared =
      location (some (record { flags = 3; name = none; kind = 1; location = none }))
      ∷ filetype (some (some (0x2E ∷ 0x66 ∷ [])))
      ∷ location (some (record { flags = 1; name = none; kind = 0; location = none }))
      ∷ location (some (record { flags = 1; name = none; kind = 0; location = some (0x64 ∷ []) }))
      ∷ [];
  get_metadata = some (λ kind path. begin_preset (some (kind ∷ [])) none ∷ []);
}

abbrev silent : Provider
silent = record provider { inits = false }

abbrev preset : ℕ → Text → ℕ → PresetEntry
preset kind path flags = record {
  location_kind = kind;
  location = path;
  load_key = [];
  name = kind ∷ [];
  collection_id = [];
  description = [];
  creators = [];
  features = [];
  flags = flags;
  creation_time = 0;
  modification_time = 0;
}

abbrev presets : List PresetEntry
presets = preset 0 (2 ∷ []) 1 ∷ preset 0 (3 ∷ []) 1 ∷ preset 1 [] 3 ∷ []

crawl-folder : (crawl kinds files (5 ∷ []) 0 (silent ∷ provider ∷ [])).0 ≡ presets
unfolding crawl crawl_providers collected_of crawl_locations crawl_location crawl_directory
    read_file finish_file receive amend kept same sorted insert entry_less text_less to_lower
    normalize_extension declare_filetype recorded_place declare_location declares matches_extension
crawl-folder = refl

crawl-Indexes_example : (crawl kinds files (5 ∷ []) 0 (silent ∷ provider ∷ [])).0 ≡ presets
unfolding details same sorted insert entry_less text_less to_lower normalize_extension
    declare_filetype recorded_place declare_location declares matches_extension
crawl-Indexes_example = crawl-Indexes kinds files (5 ∷ []) 0 (silent ∷ provider ∷ [])
