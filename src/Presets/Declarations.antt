-- ===== src/Presets/Declarations.antt =====
-- `Declarations`: what a provider declares, call by call. The constants for the kinds of a location
-- are parameters.
use wrac_plugin_template.Prelude.{
  ℕ, ◌+◌, Bool, true, false, ◌&&◌, ◌||◌, ◌==◌, leb, if◌then◌else◌, List, [], ◌∷◌, ◌++◌, Option,
  none, some,
}
use wrac_plugin_template.Prelude.Text.{Text, is_empty, same}
use wrac_plugin_template.Presets.{text_or_empty}

-- `std::tolower` in the C locale.
abbrev pub lower : ℕ → ℕ
lower c = if leb 0x41 c && leb c 0x5A then c + 0x20 else c

unfoldable pub to_lower : Text → Text
to_lower [] = []
to_lower (c ∷ s) = lower c ∷ to_lower s

abbrev pub without_dot : Text → Text
without_dot [] = []
without_dot (c ∷ s) = if c == 0x2E then s else c ∷ s

unfoldable pub normalize_extension : Option Text → Text
unfolding to_lower
normalize_extension none = []
normalize_extension (some declared) = to_lower (without_dot declared)

pub record Kinds : Type 0 where
  pub file : ℕ
  pub plugin : ℕ

pub record Location : Type 0 where
  pub flags : ℕ
  pub kind : ℕ
  pub name : Text
  pub location : Text

pub record PresetCollection : Type 0 where
  pub id : Text
  pub name : Text
  pub description : Text
  pub vendor : Text
  pub homepage_url : Text
  pub image_path : Text
  pub release_timestamp : ℕ
  pub flags : ℕ

pub record Declarations : Type 0 where
  pub extensions : List Text
  pub locations : List Location
  pub collections : List PresetCollection

-- A call of the indexer. A null structure is `none`, a null string in it too.
pub record DeclaredLocation : Type 0 where
  pub flags : ℕ
  pub name : Option Text
  pub kind : ℕ
  pub location : Option Text

pub record DeclaredSoundpack : Type 0 where
  pub flags : ℕ
  pub id : Option Text
  pub name : Option Text
  pub description : Option Text
  pub homepage_url : Option Text
  pub vendor : Option Text
  pub image_path : Option Text
  pub release_timestamp : ℕ

pub data Declare : Type 0 where
  filetype : Option (Option Text) → Declare
  location : Option DeclaredLocation → Declare
  soundpack : Option DeclaredSoundpack → Declare

unfoldable pub declare_filetype : Option (Option Text) → Declarations → Bool × Declarations
unfolding normalize_extension
declare_filetype none d = (false, d)
declare_filetype (some extension) d =
    (true, record d { extensions = d.extensions ++ normalize_extension extension ∷ [] })

-- The place that is recorded, where the location is taken.
unfoldable pub recorded_place : Kinds → ℕ → Option Text → Option Text
recorded_place kinds kind place =
    if kind == kinds.file
    then (if is_empty (text_or_empty place) then none else some (text_or_empty place))
    else if kind == kinds.plugin
    then (if is_empty (text_or_empty place) then some [] else none)
    else none

abbrev pub add_location : DeclaredLocation → Option Text → Declarations → Bool × Declarations
add_location l none d = (false, d)
add_location l (some place) d = (
  true,
  record d {
    locations =
        d.locations
        ++ record { flags = l.flags; kind = l.kind; name = text_or_empty l.name; location = place }
          ∷ [];
  },
)

unfoldable pub declare_location :
    Kinds → Option DeclaredLocation → Declarations → Bool × Declarations
unfolding recorded_place
declare_location kinds none d = (false, d)
declare_location kinds (some l) d = add_location l (recorded_place kinds l.kind l.location) d

abbrev pub add_soundpack : DeclaredSoundpack → Option Text → Declarations → Bool × Declarations
add_soundpack s none d = (false, d)
add_soundpack s (some id) d = (
  true,
  record d {
    collections =
        d.collections
        ++ record {
          id = id;
          name = text_or_empty s.name;
          description = text_or_empty s.description;
          vendor = text_or_empty s.vendor;
          homepage_url = text_or_empty s.homepage_url;
          image_path = text_or_empty s.image_path;
          release_timestamp = s.release_timestamp;
          flags = s.flags;
        }
          ∷ [];
  },
)

unfoldable pub declare_soundpack : Option DeclaredSoundpack → Declarations → Bool × Declarations
declare_soundpack none d = (false, d)
declare_soundpack (some s) d = add_soundpack s s.id d

abbrev pub declare : Kinds → Declare → Declarations → Declarations
declare kinds (filetype e) d = (declare_filetype e d).1
declare kinds (location l) d = (declare_location kinds l d).1
declare kinds (soundpack s) d = (declare_soundpack s d).1

abbrev pub declare_all : Kinds → List Declare → Declarations → Declarations
declare_all kinds [] d = d
declare_all kinds (c ∷ calls) d = declare_all kinds calls (declare kinds c d)

-- Whether an extension is declared, of a path's extension as it stands.
unfoldable pub declares : List Text → Text → Bool
declares [] extension = false
declares (e ∷ extensions) extension =
    is_empty e || same e extension || declares extensions extension

unfoldable pub matches_extension : List Text → Text → Bool
unfolding declares to_lower
matches_extension extensions extension = declares extensions (to_lower (without_dot extension))
