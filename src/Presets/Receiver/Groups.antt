-- ===== src/Presets/Receiver/Groups.antt =====
-- What is collected of a file, said of the calls as a whole.
use wrac_plugin_template.Prelude.{
  ℕ, Bool, true, false, ◌||◌, if◌then◌else◌, List, [], ◌∷◌, ◌++◌, Option, none, some,
}
use wrac_plugin_template.Prelude.Text.{Text}
use wrac_plugin_template.Presets.{PresetEntry}
use wrac_plugin_template.Presets.Receiver.{
  Call, on_error, begin_preset, add_plugin_id, set_soundpack_id, set_flags, add_creator,
  set_description, set_timestamps, add_feature, add_extra_info, Receiver, is_for, unless_empty,
  new_entry,
}

-- The calls up to the next preset.
unfoldable pub details : List Call → List Call
details [] = []
details (begin_preset name key ∷ calls) = []
details (on_error ∷ calls) = on_error ∷ details calls
details (add_plugin_id id ∷ calls) = add_plugin_id id ∷ details calls
details (set_soundpack_id id ∷ calls) = set_soundpack_id id ∷ details calls
details (set_flags flags ∷ calls) = set_flags flags ∷ details calls
details (add_creator c ∷ calls) = add_creator c ∷ details calls
details (set_description d ∷ calls) = set_description d ∷ details calls
details (set_timestamps c m ∷ calls) = set_timestamps c m ∷ details calls
details (add_feature f ∷ calls) = add_feature f ∷ details calls
details (add_extra_info ∷ calls) = add_extra_info ∷ details calls

-- What one call says of each property.
abbrev pub soundpack_in : Call → Option Text
soundpack_in (set_soundpack_id id) = id
soundpack_in c = none

abbrev pub description_in : Call → Option Text
description_in (set_description d) = d
description_in c = none

abbrev pub flags_in : Call → Option ℕ
flags_in (set_flags f) = some f
flags_in c = none

abbrev pub times_in : Call → Option (ℕ × ℕ)
times_in (set_timestamps c m) = some (c, m)
times_in c = none

abbrev pub creators_in : Call → List Text
creators_in (add_creator c) = unless_empty c
creators_in c = []

abbrev pub features_in : Call → List Text
features_in (add_feature f) = unless_empty f
features_in c = []

abbrev pub ids_in : Call → List (Option Text × Option Text)
ids_in (add_plugin_id (some id)) = id ∷ []
ids_in c = []

-- The last that calls say, or what was there before, and all that they say.
abbrev pub last_of : {A : Type 0} → (Call → Option A) → A → List Call → A
last_of said old [] = old
last_of said old (c ∷ calls) = last_of said (elim (said c) [ none ↦ old | some new ↦ new ]) calls

abbrev pub all_of : {A : Type 0} → (Call → List A) → List Call → List A
all_of said [] = []
all_of said (c ∷ calls) = said c ++ all_of said calls

abbrev pub any_for : Text → List (Option Text × Option Text) → Bool
any_for plugin [] = false
any_for plugin (id ∷ ids) = is_for plugin id || any_for plugin ids

abbrev pub is_none : {A : Type 0} → List A → Bool
is_none [] = true
is_none (x ∷ xs) = false

-- The entry of a preset, and whether it is one of the plugin: it names no plugin or this one.
abbrev pub described : PresetEntry → List Call → PresetEntry
described e calls = record e {
  collection_id = last_of soundpack_in e.collection_id calls;
  description = last_of description_in e.description calls;
  creators = e.creators ++ all_of creators_in calls;
  features = e.features ++ all_of features_in calls;
  flags = last_of flags_in e.flags calls;
  creation_time = (last_of times_in (e.creation_time, e.modification_time) calls).0;
  modification_time = (last_of times_in (e.creation_time, e.modification_time) calls).1;
}

abbrev pub is_wanted : Text → List Call → Bool
is_wanted plugin calls = is_none (all_of ids_in calls) || any_for plugin (all_of ids_in calls)

-- The entry of a call that begins a preset, with the calls after it.
abbrev pub entry_at : Receiver → Call → List Call → List PresetEntry
entry_at r (begin_preset name key) calls =
    if is_wanted r.plugin_id (details calls)
    then described (new_entry r name key) (details calls) ∷ []
    else []
entry_at r c calls = []

abbrev pub entries_of : Receiver → List Call → List PresetEntry
entries_of r [] = []
entries_of r (c ∷ calls) = entry_at r c calls ++ entries_of r calls
