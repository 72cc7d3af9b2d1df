-- ===== src/Presets/Receiver.antt =====
-- `Receiver`: what a provider says of the presets of a file, one call at a time. `none` is the null
-- pointer.
pub mod Groups
pub mod Collects
mod Tests
use wrac_plugin_template.Prelude.{
  ℕ, Bool, true, false, not, ◌&&◌, ◌||◌, if◌then◌else◌, List, [], ◌∷◌, ◌++◌, Option, none, some,
}
use wrac_plugin_template.Prelude.Text.{Text, is_empty, same}
use wrac_plugin_template.Presets.{PresetEntry, text_or_empty}

pub data Call : Type 0 where
  on_error : Call
  begin_preset : Option Text → Option Text → Call
  add_plugin_id : Option (Option Text × Option Text) → Call
  set_soundpack_id : Option Text → Call
  set_flags : ℕ → Call
  add_creator : Option Text → Call
  set_description : Option Text → Call
  set_timestamps : ℕ → ℕ → Call
  add_feature : Option Text → Call
  add_extra_info : Call

pub record Pending : Type 0 where
  pub entry : PresetEntry
  pub saw_any_plugin_id : Bool
  pub matched_plugin_id : Bool

-- The pending presets stand with the one that was begun last in front. `timestamp_unknown` is the
-- constant `CLAP_TIMESTAMP_UNKNOWN`, a parameter.
pub record Receiver : Type 0 where
  pub location_kind : ℕ
  pub location : Text
  pub location_flags : ℕ
  pub plugin_id : Text
  pub timestamp_unknown : ℕ
  pub collected : List PresetEntry
  pub pending : List Pending

-- "clap"
abbrev pub clap_abi : Text
clap_abi = 0x63 ∷ 0x6C ∷ 0x61 ∷ 0x70 ∷ []

abbrev pub same_string : Option Text → Text → Bool
same_string none b = false
same_string (some a) b = same a b

abbrev pub is_for : Text → Option Text × Option Text → Bool
is_for plugin id = same_string id.0 clap_abi && same_string id.1 plugin

abbrev pub with_entry : (PresetEntry → PresetEntry) → Pending → Pending
with_entry f p = record p { entry = f p.entry }

abbrev pub unless_empty : Option Text → List Text
unless_empty none = []
unless_empty (some t) = if is_empty t then [] else t ∷ []

abbrev pub or_old : Option Text → Text → Text
or_old none old = old
or_old (some t) old = t

-- What a call does to the preset that was begun last.
unfoldable pub amend : Text → Call → Pending → Pending
amend plugin (add_plugin_id (some id)) p = record p {
  saw_any_plugin_id = true;
  matched_plugin_id = is_for plugin id || p.matched_plugin_id;
}
amend plugin (set_soundpack_id id) p =
    with_entry (λ e. record e { collection_id = or_old id e.collection_id }) p
amend plugin (set_flags flags) p = with_entry (λ e. record e { flags = flags }) p
amend plugin (add_creator creator) p =
    with_entry (λ e. record e { creators = e.creators ++ unless_empty creator }) p
amend plugin (set_description d) p =
    with_entry (λ e. record e { description = or_old d e.description }) p
amend plugin (set_timestamps created modified) p =
    with_entry (λ e. record e { creation_time = created; modification_time = modified }) p
amend plugin (add_feature feature) p =
    with_entry (λ e. record e { features = e.features ++ unless_empty feature }) p
amend plugin on_error p = p
amend plugin (begin_preset name key) p = p
amend plugin (add_plugin_id none) p = p
amend plugin add_extra_info p = p

abbrev pub new_entry : Receiver → Option Text → Option Text → PresetEntry
new_entry r name key = record {
  location_kind = r.location_kind;
  location = r.location;
  load_key = text_or_empty key;
  name = text_or_empty name;
  collection_id = [];
  description = [];
  creators = [];
  features = [];
  flags = r.location_flags;
  creation_time = r.timestamp_unknown;
  modification_time = r.timestamp_unknown;
}

abbrev pub amend_last : Text → Call → List Pending → List Pending
amend_last plugin c [] = []
amend_last plugin c (p ∷ pending) = amend plugin c p ∷ pending

abbrev pub fresh_pending : Receiver → Option Text → Option Text → Pending
fresh_pending r name key = record {
  entry = new_entry r name key;
  saw_any_plugin_id = false;
  matched_plugin_id = false;
}

unfoldable pub receive : Receiver → Call → Receiver
unfolding amend
receive r (begin_preset name key) = record r { pending = fresh_pending r name key ∷ r.pending }
receive r on_error = r
receive r add_extra_info = r
receive r (add_plugin_id id) = record r {
  pending = amend_last r.plugin_id (add_plugin_id id) r.pending;
}
receive r (set_soundpack_id id) = record r {
  pending = amend_last r.plugin_id (set_soundpack_id id) r.pending;
}
receive r (set_flags flags) = record r {
  pending = amend_last r.plugin_id (set_flags flags) r.pending;
}
receive r (add_creator creator) = record r {
  pending = amend_last r.plugin_id (add_creator creator) r.pending;
}
receive r (set_description d) = record r {
  pending = amend_last r.plugin_id (set_description d) r.pending;
}
receive r (set_timestamps created modified) = record r {
  pending = amend_last r.plugin_id (set_timestamps created modified) r.pending;
}
receive r (add_feature feature) = record r {
  pending = amend_last r.plugin_id (add_feature feature) r.pending;
}

abbrev pub receive_all : Receiver → List Call → Receiver
receive_all r [] = r
receive_all r (c ∷ calls) = receive_all (receive r c) calls

-- The presets that are kept, in the order in which they were begun.
unfoldable pub kept : List Pending → List PresetEntry
kept [] = []
kept (p ∷ pending) =
    kept pending ++ (if not p.saw_any_plugin_id || p.matched_plugin_id then p.entry ∷ [] else [])

unfoldable pub finish_file : Receiver → Receiver
unfolding kept
finish_file r = record r { collected = r.collected ++ kept r.pending; pending = [] }
