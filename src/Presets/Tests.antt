-- ===== src/Presets/Tests.antt =====
-- Three presets: one in the plugin itself and two in the files a.fxp and b.fxp.
use wrac_plugin_template.Prelude.{ℕ, [], ◌∷◌, none, some, ◌≡◌, refl}
use wrac_plugin_template.Prelude.Text.{Text, same}
use wrac_plugin_template.Presets.{
  PresetEntry, file_of, before_dot, default_name, display_name, text_less, entry_less, insert,
  sorted, index_from, index_of,
}
use wrac_plugin_template.Presets.Numbering.{
  keeps, swaps, joins, sorted-Shuffled, index_of-preset_at,
}

abbrev preset : ℕ → Text → Text → PresetEntry
preset kind location key = record {
  location_kind = kind;
  location = location;
  load_key = key;
  name = [];
  collection_id = [];
  description = [];
  creators = [];
  features = [];
  flags = 0;
  creation_time = 0;
  modification_time = 0;
}

-- "/a.fxp"
abbrev file_a : Text
file_a = 0x2F ∷ 0x61 ∷ 0x2E ∷ 0x66 ∷ 0x78 ∷ 0x70 ∷ []

-- "/b.fxp"
abbrev file_b : Text
file_b = 0x2F ∷ 0x62 ∷ 0x2E ∷ 0x66 ∷ 0x78 ∷ 0x70 ∷ []

-- "x/.b"
abbrev hidden : Text
hidden = 0x78 ∷ 0x2F ∷ 0x2E ∷ 0x62 ∷ []

abbrev preset_a : PresetEntry
preset_a = preset 0 file_a []

abbrev preset_b : PresetEntry
preset_b = preset 0 file_b []

abbrev preset_in : PresetEntry
preset_in = preset 1 [] (7 ∷ [])

display_name-file : display_name preset_a ≡ 0x61 ∷ []
unfolding display_name file_of before_dot
display_name-file = refl

display_name-hidden : display_name (preset 0 hidden []) ≡ 0x2E ∷ 0x62 ∷ []
unfolding display_name file_of before_dot
display_name-hidden = refl

display_name-key : display_name preset_in ≡ 7 ∷ []
unfolding display_name file_of before_dot
display_name-key = refl

display_name-none : display_name (preset 1 [] []) ≡ default_name
unfolding display_name file_of before_dot
display_name-none = refl

sorted-three : sorted (preset_in ∷ preset_b ∷ preset_a ∷ []) ≡ preset_a ∷ preset_b ∷ preset_in ∷ []
unfolding sorted insert entry_less text_less
sorted-three = refl

index_of-missing : index_of (preset_a ∷ preset_b ∷ []) 1 none none ≡ none
unfolding index_of index_from same
index_of-missing = refl

index_of-null : index_of (preset_a ∷ preset 1 [] [] ∷ []) 1 none none ≡ some 1
unfolding index_of index_from same
index_of-null = refl

sorted-Shuffled_example :
    sorted (preset_in ∷ preset_b ∷ preset_a ∷ []) ≡ sorted (preset_b ∷ preset_a ∷ preset_in ∷ [])
unfolding same
sorted-Shuffled_example =
    sorted-Shuffled
      (joins (swaps preset_in preset_b (preset_a ∷ []))
        (keeps preset_b (swaps preset_in preset_a [])))
      (refl, (refl, (refl, tt)))

index_of-preset_at_example :
    index_of (sorted (preset_in ∷ preset_b ∷ preset_a ∷ [])) 0 (some file_b) (some []) ≡ some 1
unfolding same sorted insert entry_less text_less
index_of-preset_at_example =
    index_of-preset_at (preset_in ∷ preset_b ∷ preset_a ∷ []) 1 preset_b (refl, (refl, (refl, tt)))
      refl
