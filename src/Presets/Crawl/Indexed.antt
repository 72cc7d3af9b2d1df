-- ===== src/Presets/Crawl/Indexed.antt =====
-- What the index of a crawl is: the presets of the files that are visited, sorted.
use wrac_plugin_template.Prelude.{
  ℕ, zero, suc, Bool, not, ◌||◌, ◌==◌, ltb, if◌then◌else◌, List, [], ◌∷◌, ◌++◌, append-nil,
  append_assoc, map, take, Option, none, some, ◌≡◌, refl, sym, ap, ◌∙◌, inl, inr, Bool-cases,
}
use wrac_plugin_template.Prelude.Text.{Text}
use wrac_plugin_template.Presets.{PresetEntry, sorted}
use wrac_plugin_template.Presets.Receiver.{
  Call, on_error, begin_preset, add_plugin_id, set_soundpack_id, set_flags, add_creator,
  set_description, set_timestamps, add_feature, add_extra_info, Receiver, receive, receive_all,
  kept, finish_file,
}
use wrac_plugin_template.Presets.Receiver.Groups.{entries_of}
use wrac_plugin_template.Presets.Receiver.Collects.{kept-first}
use wrac_plugin_template.Presets.Declarations.{
  Kinds, Location, PresetCollection, Declarations, matches_extension,
}
use wrac_plugin_template.Presets.Crawl.{
  FileEntry, unread, entry, FileSystem, Provider, max_crawl_depth, max_presets_per_location,
  read_file, crawl_directory, crawl_location, crawl_locations, declarations_of, is_usable,
  collected_of, crawl_providers, crawl,
}
use wrac_plugin_template.Presets.Crawl.Found.{
  preset_files, visits_at, read_at, found_in, found_at, reader, found_of, found_by_all,
}

receive-only :
    (r : Receiver) (c : Call) → receive r c ≡ record r { pending = (receive r c).pending }
unfolding receive
receive-only r on_error = refl
receive-only r (begin_preset n k) = refl
receive-only r (add_plugin_id x) = refl
receive-only r (set_soundpack_id x) = refl
receive-only r (set_flags x) = refl
receive-only r (add_creator x) = refl
receive-only r (set_description x) = refl
receive-only r (set_timestamps x y) = refl
receive-only r (add_feature x) = refl
receive-only r add_extra_info = refl

receive_all-only :
    (r : Receiver) (calls : List Call)
    → receive_all r calls ≡ record r { pending = (receive_all r calls).pending }
receive_all-only r [] = refl
receive_all-only r (c ∷ calls) =
    receive_all-only (receive r c) calls
    ∙ ap (λ (r' : Receiver). record r' { pending = (receive_all (receive r c) calls).pending })
        (receive-only r c)

read_file-lem :
    (metadata : Option Text → List Call) (place : Text) (given : Option Text) (b : Receiver)
    (k f : ℕ) (q : Text) (cs : List PresetEntry)
    → read_file metadata place given (read_at b k f q cs)
      ≡ read_at b k f place (cs ++ entries_of (read_at b k f place []) (metadata given))
unfolding read_file finish_file
read_file-lem metadata place given b k f q cs =
    let r = read_at b k f place cs in
    ap (λ (r' : Receiver). record r' { collected = r'.collected ++ kept r'.pending; pending = [] })
      (receive_all-only r (metadata given))
    ∙ ap (λ (es : List PresetEntry). read_at b k f place (cs ++ es)) (kept-first r (metadata given))

abbrev last_place : Text → List Text → Text
last_place q [] = q
last_place q (p ∷ paths) = last_place p paths

abbrev files_of : List Text → List (Text × Option Text)
files_of paths = map (λ p. (p, some p)) paths

module _ (b : Receiver) (k f : ℕ) (metadata : Option Text → List Call)
    (extensions : List Text) where
  abbrev directory_end : Text → List PresetEntry → List Text → Receiver
  directory_end q cs paths =
      read_at b k f (last_place q paths) (cs ++ found_in b k f metadata (files_of paths))

  abbrev skips : ℕ → Bool → Text → Bool
  skips depth regular extension =
      ltb max_crawl_depth depth || (not regular || not (matches_extension extensions extension))

  crawl_directory-lem :
      (entries : List FileEntry) (room : ℕ) (q : Text) (cs : List PresetEntry)
      → crawl_directory metadata extensions entries room (read_at b k f q cs)
        ≡ directory_end q cs (take room (preset_files extensions entries))
  unfolding crawl_directory
  crawl_directory-lem [] zero q cs = ap (read_at b k f q) (sym (append-nil cs))
  crawl_directory-lem [] (suc room) q cs = ap (read_at b k f q) (sym (append-nil cs))
  crawl_directory-lem (unread ∷ entries) room q cs = crawl_directory-lem entries room q cs
  crawl_directory-lem (entry depth regular extension path ∷ entries) zero q cs =
      elim (Bool-cases (skips depth regular extension)) [
        | inl e ↦ rw e (crawl_directory-lem entries zero q cs)
        | inr e ↦ rw e (ap (read_at b k f q) (sym (append-nil cs)))
      ]
  crawl_directory-lem (entry depth regular extension path ∷ entries) (suc room) q cs =
      let es = entries_of (read_at b k f path []) (metadata (some path)) in
      elim (Bool-cases (skips depth regular extension)) [
        | inl e ↦ rw e (crawl_directory-lem entries (suc room) q cs)
        | inr e ↦ rw e (
            ap (crawl_directory metadata extensions entries room)
              (read_file-lem metadata path (some path) b k f q cs)
            ∙ crawl_directory-lem entries room path (cs ++ es)
            ∙ ap (read_at b k f (last_place path (take room (preset_files extensions entries)))) (
                append_assoc cs es (
                  found_in b k f metadata
                    (files_of (take room (preset_files extensions entries))))))
      ]

module _ (kinds : Kinds) (files : FileSystem) (b : Receiver) (extensions : List Text)
    (metadata : ℕ → Option Text → List Call) where
  location_end :
      (l : Location) (k f : ℕ) (q : Text) (cs : List PresetEntry)
      → (place : Text) × (crawl_location kinds files metadata extensions l (read_at b k f q cs)
          ≡ read_at b l.kind l.flags place (
              cs
              ++ found_in b l.kind l.flags (metadata l.kind) (visits_at kinds files extensions l)))
  unfolding crawl_location
  location_end l k f q cs = elim (Bool-cases (l.kind == kinds.plugin)) [
    | inl e ↦ rw e ([], one [] none)
    | inr n ↦ elim (Bool-cases (files.is_regular_file l.location)) [
      | inl e ↦ rw (n, e) (l.location, one l.location (some l.location))
      | inr m ↦ elim (Bool-cases (files.is_directory l.location)) [
        | inl e ↦
            rw (n, m, e)
              (
                last_place q (
                    take max_presets_per_location
                      (preset_files extensions (files.walk l.location))),
                crawl_directory-lem b l.kind l.flags (metadata l.kind) extensions
                    (files.walk l.location) max_presets_per_location q cs,
              )
        | inr e ↦ rw (n, m, e) (q, ap (read_at b l.kind l.flags q) (sym (append-nil cs)))
      ]
    ]
  ]
    where
      one :
          (place : Text) (given : Option Text)
          → read_file (metadata l.kind) place given (read_at b l.kind l.flags q cs)
            ≡ read_at b l.kind l.flags place
                (cs ++ found_in b l.kind l.flags (metadata l.kind) ((place, given) ∷ []))
      one place given =
          read_file-lem (metadata l.kind) place given b l.kind l.flags q cs
          ∙ ap (λ (es : List PresetEntry). read_at b l.kind l.flags place (cs ++ es))
              (sym (
                append-nil
                  (entries_of (read_at b l.kind l.flags place []) (metadata l.kind given))))

  crawl_locations-lem :
      (locations : List Location) (k f : ℕ) (q : Text) (cs : List PresetEntry)
      → (crawl_locations kinds files metadata extensions locations (read_at b k f q cs)).collected
        ≡ cs ++ found_at kinds files b extensions metadata locations
  unfolding crawl_locations
  crawl_locations-lem [] k f q cs = sym (append-nil cs)
  crawl_locations-lem (l ∷ locations) k f q cs =
      let first = location_end l k f q cs in
      let found =
        found_in b l.kind l.flags (metadata l.kind) (visits_at kinds files extensions l) in
      ap (λ (r : Receiver). (crawl_locations kinds files metadata extensions locations r).collected)
        first.1
      ∙ crawl_locations-lem locations l.kind l.flags first.0 (cs ++ found)
      ∙ append_assoc cs found (found_at kinds files b extensions metadata locations)

module _ (kinds : Kinds) (files : FileSystem) (plugin_id : Text) (timestamp_unknown : ℕ) where
  collected_of-found :
      (d : Declarations) (metadata : Option (ℕ → Option Text → List Call))
      → collected_of kinds files plugin_id timestamp_unknown d metadata
        ≡ found_of kinds files plugin_id timestamp_unknown d metadata
  unfolding collected_of
  collected_of-found d none = refl
  collected_of-found d (some metadata) =
      crawl_locations-lem kinds files (reader kinds files plugin_id timestamp_unknown) d.extensions
        metadata d.locations kinds.file 0 [] []

  abbrev after :
      List PresetEntry
      → List PresetCollection
      → Provider
      → List Provider
      → Bool
      → List PresetEntry × List PresetCollection
  after ps cs p providers usable =
      let d = declarations_of kinds files p in
      crawl_providers kinds files plugin_id timestamp_unknown providers (
        if usable
        then (
          ps ++ collected_of kinds files plugin_id timestamp_unknown d p.get_metadata,
          cs ++ d.collections,
        )
        else (ps, cs))

  crawl_providers-lem :
      (providers : List Provider) (ps : List PresetEntry) (cs : List PresetCollection)
      → (crawl_providers kinds files plugin_id timestamp_unknown providers (ps, cs)).0
        ≡ ps ++ found_by_all kinds files plugin_id timestamp_unknown providers
  unfolding crawl_providers
  crawl_providers-lem [] ps cs = sym (append-nil ps)
  crawl_providers-lem (p ∷ providers) ps cs =
      let d = declarations_of kinds files p in
      let later = found_by_all kinds files plugin_id timestamp_unknown providers in
      let whole = λ (u : Bool).
        ps
        ++ ((if u then found_of kinds files plugin_id timestamp_unknown d p.get_metadata else [])
            ++ later) in
      elim (Bool-cases (is_usable kinds files p)) [
        | inl e ↦
            ap (λ u. (after ps cs p providers u).0) e
            ∙ ap
                (λ (x : List PresetEntry).
                  (crawl_providers kinds files plugin_id timestamp_unknown providers
                    (ps ++ x, cs ++ d.collections)).0)
                (collected_of-found d p.get_metadata)
            ∙ crawl_providers-lem providers
                (ps ++ found_of kinds files plugin_id timestamp_unknown d p.get_metadata)
                (cs ++ d.collections)
            ∙ append_assoc ps (found_of kinds files plugin_id timestamp_unknown d p.get_metadata)
                later
            ∙ ap whole (sym e)
        | inr e ↦
            ap (λ u. (after ps cs p providers u).0) e
            ∙ crawl_providers-lem providers ps cs
            ∙ ap whole (sym e)
      ]

  -- The index of a crawl holds, sorted, what the usable providers say of this plugin in the files that
  -- are visited: the plugin's own container, a single file, or at most 50000 files of a directory that
  -- have a declared extension and stand at most eight folders below it.
  pub crawl-Indexes :
      (providers : List Provider)
      → (crawl kinds files plugin_id timestamp_unknown providers).0
        ≡ sorted (found_by_all kinds files plugin_id timestamp_unknown providers)
  unfolding crawl
  crawl-Indexes providers = ap sorted (crawl_providers-lem providers [] [])
