-- ===== src/Presets.antt =====
-- The index of a plugin's presets, `PresetIndex` of
-- clap_wrapper_builder/clap-wrapper/src/detail/clap/preset_discovery.cpp and preset_discovery.h: its
-- entries with their order, and what a host asks of them. `Listeners` is about who is told of its
-- end, `Receiver` about what a provider says of a file.
pub mod Order
pub mod Numbering
pub mod Receiver
pub mod Declarations
pub mod Crawl
pub mod Listeners
mod Tests
use wrac_plugin_template.Prelude.{
  ℕ, zero, suc, ◌+◌, Bool, true, false, not, ◌&&◌, ◌||◌, ◌==◌, ltb, if◌then◌else◌, List, [], ◌∷◌,
  ◌++◌, Option, none, some, get_elem?,
}
use wrac_plugin_template.Prelude.Text.{Text, is_empty, same}

pub record PresetEntry : Type 0 where
  pub location_kind : ℕ
  pub location : Text
  pub load_key : Text
  pub name : Text
  pub collection_id : Text
  pub description : Text
  pub creators : List Text
  pub features : List Text
  pub flags : ℕ
  pub creation_time : ℕ
  pub modification_time : ℕ

-- What stands behind the last slash of either kind.
pub file_of : Text → Text → Text
file_of [] file = file
file_of (c ∷ rest) file = file_of rest (if c == 0x2F || c == 0x5C then [] else file ++ c ∷ [])

-- What stands in front of the last dot; the whole text if it has none.
pub before_dot : Text → Text → Option Text → Option Text
before_dot [] seen best = best
before_dot (c ∷ rest) seen best =
    before_dot rest (seen ++ c ∷ []) (if c == 0x2E then some seen else best)

abbrev pub stem_of : Text → Option Text → Text
stem_of file none = file
stem_of file (some []) = file
stem_of file (some (c ∷ stem)) = c ∷ stem

-- "Preset"
abbrev pub default_name : Text
default_name = 0x50 ∷ 0x72 ∷ 0x65 ∷ 0x73 ∷ 0x65 ∷ 0x74 ∷ []

pub display_name : PresetEntry → Text
unfolding file_of before_dot
display_name e =
    let file = file_of e.location [] in
    if not (is_empty e.name)
    then e.name
    else if not (is_empty e.load_key)
    then e.load_key
    else if not (is_empty e.location)
    then stem_of file (before_dot file [] none)
    else default_name

-- Strings by their bytes, and entries by their kind, then their location, then their key.
pub text_less : Text → Text → Bool
text_less [] [] = false
text_less [] (d ∷ t) = true
text_less (c ∷ s) [] = false
text_less (c ∷ s) (d ∷ t) = ltb c d || (c == d && text_less s t)

pub entry_less : PresetEntry → PresetEntry → Bool
unfolding text_less
entry_less a b =
    ltb a.location_kind b.location_kind
    || (not (ltb b.location_kind a.location_kind)
        && (text_less a.location b.location
            || (not (text_less b.location a.location) && text_less a.load_key b.load_key)))

-- `std::stable_sort`, as a sort by insertion in front of what is equal.
pub insert : PresetEntry → List PresetEntry → List PresetEntry
insert a [] = a ∷ []
insert a (b ∷ bs) = let rest = insert a bs in if entry_less b a then b ∷ rest else a ∷ b ∷ bs

pub sorted : List PresetEntry → List PresetEntry
unfolding insert
sorted [] = []
sorted (a ∷ rest) = insert a (sorted rest)

-- `presetAt`, `none` where it returns false, and `indexOf`, from a first index on; the null pointers
-- are empty texts to it.
abbrev pub preset_at : List PresetEntry → ℕ → Option PresetEntry
preset_at presets i = get_elem? presets i

pub index_from : ℕ → List PresetEntry → ℕ → Text → Text → Option ℕ
index_from i [] kind location key = none
index_from i (e ∷ presets) kind location key =
    if e.location_kind == kind && (same e.location location && same e.load_key key)
    then some i
    else index_from (i + 1) presets kind location key

abbrev pub text_or_empty : Option Text → Text
text_or_empty none = []
text_or_empty (some t) = t

pub index_of : List PresetEntry → ℕ → Option Text → Option Text → Option ℕ
unfolding index_from
index_of presets kind location key =
    index_from 0 presets kind (text_or_empty location) (text_or_empty key)
