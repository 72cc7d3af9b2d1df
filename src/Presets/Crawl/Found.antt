-- ===== src/Presets/Crawl/Found.antt =====
-- What a crawl finds: the files that are visited and what the providers say of them, without the state
-- of the loops.
use wrac_plugin_template.Prelude.{
  ℕ, Bool, not, ◌||◌, ◌==◌, ltb, if◌then◌else◌, List, [], ◌∷◌, ◌++◌, map, take, Option, none, some,
}
use wrac_plugin_template.Prelude.Text.{Text}
use wrac_plugin_template.Presets.{PresetEntry}
use wrac_plugin_template.Presets.Receiver.{Call, Receiver}
use wrac_plugin_template.Presets.Receiver.Groups.{entries_of}
use wrac_plugin_template.Presets.Declarations.{Kinds, Location, Declarations, matches_extension}
use wrac_plugin_template.Presets.Crawl.{
  FileEntry, unread, entry, FileSystem, Provider, max_crawl_depth, max_presets_per_location,
  declarations_of, is_usable, new_receiver,
}

-- The files of a directory that have a declared extension and stand no deeper than the bound.
abbrev pub is_preset : List Text → ℕ → Bool → Text → Bool
is_preset extensions depth regular extension =
    not (ltb max_crawl_depth depth || (not regular || not (matches_extension extensions extension)))

abbrev pub preset_files : List Text → List FileEntry → List Text
preset_files extensions [] = []
preset_files extensions (unread ∷ entries) = preset_files extensions entries
preset_files extensions (entry depth regular extension path ∷ entries) =
    if is_preset extensions depth regular extension
    then path ∷ preset_files extensions entries
    else preset_files extensions entries

-- What is visited, as it is recorded and as the provider is told.
abbrev pub visits_at : Kinds → FileSystem → List Text → Location → List (Text × Option Text)
visits_at kinds files extensions l =
    if l.kind == kinds.plugin
    then ([], none) ∷ []
    else if files.is_regular_file l.location
    then (l.location, some l.location) ∷ []
    else if not (files.is_directory l.location)
    then []
    else map (λ p. (p, some p))
        (take max_presets_per_location (preset_files extensions (files.walk l.location)))

-- The presets of some visits; what is recorded with each is the kind and the flags of the location.
abbrev pub read_at : Receiver → ℕ → ℕ → Text → List PresetEntry → Receiver
read_at b k f place collected = record b {
  location_kind = k;
  location_flags = f;
  location = place;
  collected = collected;
  pending = [];
}

abbrev pub found_in :
    Receiver → ℕ → ℕ → (Option Text → List Call) → List (Text × Option Text) → List PresetEntry
found_in b k f metadata [] = []
found_in b k f metadata (v ∷ visits) =
    entries_of (read_at b k f v.0 []) (metadata v.1) ++ found_in b k f metadata visits

abbrev pub found_at :
    Kinds
    → FileSystem
    → Receiver
    → List Text
    → (ℕ → Option Text → List Call)
    → List Location
    → List PresetEntry
found_at kinds files b extensions metadata [] = []
found_at kinds files b extensions metadata (l ∷ locations) =
    found_in b l.kind l.flags (metadata l.kind) (visits_at kinds files extensions l)
    ++ found_at kinds files b extensions metadata locations

module _ (kinds : Kinds) (files : FileSystem) (plugin_id : Text) (timestamp_unknown : ℕ) where
  abbrev pub reader : Receiver
  reader = new_receiver kinds files plugin_id timestamp_unknown

  -- What a provider has of the plugin.
  abbrev pub found_of : Declarations → Option (ℕ → Option Text → List Call) → List PresetEntry
  found_of d none = []
  found_of d (some metadata) = found_at kinds files reader d.extensions metadata d.locations

  abbrev pub found_by : Provider → List PresetEntry
  found_by p =
      if is_usable kinds files p
      then found_of (declarations_of kinds files p) p.get_metadata
      else []

  abbrev pub found_by_all : List Provider → List PresetEntry
  found_by_all [] = []
  found_by_all (p ∷ providers) = found_by p ++ found_by_all providers
