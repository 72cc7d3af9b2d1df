-- ===== src/Presets/Crawl.antt =====
-- `crawl`, where it is not abandoned. A provider is what it calls back, and the file system what it
-- lists; both are parameters.
pub mod Found
pub mod Indexed
mod Tests
use wrac_plugin_template.Prelude.{
  ℕ, zero, suc, ◌+◌, Bool, true, false, not, ◌&&◌, ◌||◌, ◌==◌, ltb, leb, if◌then◌else◌, List, [],
  ◌∷◌, ◌++◌, map, Option, none, some,
}
use wrac_plugin_template.Prelude.Text.{Text, is_empty, same}
use wrac_plugin_template.Presets.{PresetEntry, text_or_empty, sorted}
use wrac_plugin_template.Presets.Receiver.{Call, Receiver, receive_all, finish_file}
use wrac_plugin_template.Presets.Declarations.{
  Kinds, Location, PresetCollection, Declarations, Declare, declare_all, matches_extension,
}

-- An entry of a directory as the recursive iteration gives it, or an error of it.
pub data FileEntry : Type 0 where
  unread : FileEntry
  entry : ℕ → Bool → Text → Text → FileEntry

pub record FileSystem : Type 0 where
  pub is_regular_file : Text → Bool
  pub is_directory : Text → Bool
  pub walk : Text → List FileEntry

-- A descriptor with an id, a compatible version, a provider that `create` gives, whose `init` makes
-- the calls and succeeds, and `get_metadata`, which is null or makes calls for a kind and a location.
pub record Provider : Type 0 where
  pub has_id : Bool
  pub is_compatible : Bool
  pub is_created : Bool
  pub inits : Bool
  pub declared : List Declare
  pub get_metadata : Option (ℕ → Option Text → List Call)

abbrev pub max_crawl_depth : ℕ
max_crawl_depth = 8

abbrev pub max_presets_per_location : ℕ
max_presets_per_location = 50000

-- One file, or the plugin's own container.
pub read_file : (Option Text → List Call) → Text → Option Text → Receiver → Receiver
unfolding finish_file
read_file metadata place given r =
    finish_file (receive_all (record r { location = place }) (metadata given))

-- The loop over a directory, with the room that is left for presets.
pub crawl_directory :
    (Option Text → List Call) → List Text → List FileEntry → ℕ → Receiver → Receiver
unfolding read_file matches_extension
crawl_directory metadata extensions [] room r = r
crawl_directory metadata extensions (unread ∷ entries) room r =
    crawl_directory metadata extensions entries room r
crawl_directory metadata extensions (entry depth regular extension path ∷ entries) zero r =
    let skipped = crawl_directory metadata extensions entries zero r in
    if ltb max_crawl_depth depth || (not regular || not (matches_extension extensions extension))
    then skipped
    else r
crawl_directory metadata extensions (entry depth regular extension path ∷ entries) (suc room) r =
    let skipped = crawl_directory metadata extensions entries (suc room) r in
    let taken =
      crawl_directory metadata extensions entries room (read_file metadata path (some path) r) in
    if ltb max_crawl_depth depth || (not regular || not (matches_extension extensions extension))
    then skipped
    else taken

module _ (kinds : Kinds) (files : FileSystem) where
  pub crawl_location : (ℕ → Option Text → List Call) → List Text → Location → Receiver → Receiver
  unfolding read_file crawl_directory
  crawl_location metadata extensions l r =
      let r' = record r { location_kind = l.kind; location_flags = l.flags } in
      if l.kind == kinds.plugin
      then read_file (metadata l.kind) [] none r'
      else if files.is_regular_file l.location
      then read_file (metadata l.kind) l.location (some l.location) r'
      else if not (files.is_directory l.location)
      then r'
      else crawl_directory (metadata l.kind) extensions (files.walk l.location)
          max_presets_per_location r'

  pub crawl_locations :
      (ℕ → Option Text → List Call) → List Text → List Location → Receiver → Receiver
  unfolding crawl_location
  crawl_locations metadata extensions [] r = r
  crawl_locations metadata extensions (l ∷ locations) r =
      crawl_locations metadata extensions locations (crawl_location metadata extensions l r)

  abbrev pub declarations_of : Provider → Declarations
  declarations_of p =
      declare_all kinds p.declared (record { extensions = []; locations = []; collections = [] })

  abbrev pub is_usable : Provider → Bool
  is_usable p = p.has_id && (p.is_compatible && (p.is_created && p.inits))

  module _ (plugin_id : Text) (timestamp_unknown : ℕ) where
    abbrev pub new_receiver : Receiver
    new_receiver = record {
      location_kind = kinds.file;
      location = [];
      location_flags = 0;
      plugin_id = plugin_id;
      timestamp_unknown = timestamp_unknown;
      collected = [];
      pending = [];
    }

    pub collected_of : Declarations → Option (ℕ → Option Text → List Call) → List PresetEntry
    unfolding crawl_locations
    collected_of d none = []
    collected_of d (some metadata) =
        (crawl_locations metadata d.extensions d.locations new_receiver).collected

    -- The presets and the collections after the providers.
    pub crawl_providers :
        List Provider
        → List PresetEntry × List PresetCollection
        → List PresetEntry × List PresetCollection
    unfolding collected_of
    crawl_providers [] s = s
    crawl_providers (p ∷ providers) s =
        let d = declarations_of p in
        crawl_providers providers
          (if is_usable p then (s.0 ++ collected_of d p.get_metadata, s.1 ++ d.collections) else s)

    pub crawl : List Provider → List PresetEntry × List PresetCollection
    unfolding crawl_providers
    crawl providers = let all = crawl_providers providers ([], []) in (sorted all.0, all.1)
