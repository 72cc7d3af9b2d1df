-- ===== src/Standalone/Settings.antt =====
-- The file format of clap_wrapper_builder/clap-wrapper/src/detail/standalone/standalone_settings.cpp:
-- lines of a key and a value.
pub mod Escapes
pub mod Lines
pub mod Decimal
pub mod Words
pub mod Fields
pub mod Saved
pub mod Saveable
pub mod Parts
pub mod Rest
pub mod Values
pub mod RoundTrip
mod Tests
use wrac_plugin_template.Prelude.{
  ℕ, Bool, true, false, not, ◌&&◌, ◌||◌, ◌==◌, if◌then◌else◌, List, [], ◌∷◌, ◌++◌, Option, none,
  some,
}
use wrac_plugin_template.Prelude.Text.{Text, is_empty}

abbrev pub is_space : ℕ → Bool
is_space c = c == 0x20 || (c == 0x09 || (c == 0x0D || c == 0x0A))

unfoldable pub trim_front : Text → Text
trim_front [] = []
trim_front (c ∷ s) = let rest = trim_front s in if is_space c then rest else c ∷ s

unfoldable pub trim_back : Text → Text
trim_back [] = []
trim_back (c ∷ s) = let rest = trim_back s in if is_empty rest && is_space c then [] else c ∷ rest

abbrev pub trim : Text → Text
trim s = trim_back (trim_front s)

abbrev pub escaped : ℕ → Text
escaped c =
    if c == 0x5C
    then 0x5C ∷ 0x5C ∷ []
    else if c == 0x0A
    then 0x5C ∷ 0x6E ∷ []
    else if c == 0x0D
    then 0x5C ∷ 0x72 ∷ []
    else if c == 0x09
    then 0x5C ∷ 0x74 ∷ []
    else c ∷ []

unfoldable pub escape : Text → Text
escape [] = []
escape (c ∷ s) = escaped c ++ escape s

-- What stands behind a backslash.
abbrev pub unescaped : ℕ → Text
unescaped c =
    if c == 0x6E
    then 0x0A ∷ []
    else if c == 0x72
    then 0x0D ∷ []
    else if c == 0x74
    then 0x09 ∷ []
    else if c == 0x5C
    then 0x5C ∷ []
    else 0x5C ∷ c ∷ []

-- Whether a backslash was read.
unfoldable pub unescape_from : Bool → Text → Text
unescape_from false [] = []
unescape_from true [] = 0x5C ∷ []
unescape_from false (c ∷ s) =
    let pending = c == 0x5C in (if pending then [] else c ∷ []) ++ unescape_from pending s
unescape_from true (c ∷ s) = unescaped c ++ unescape_from false s

abbrev pub unescape : Text → Text
unescape s = unescape_from false s

-- The lines of `std::getline`.
abbrev pub push : ℕ → List Text → List Text
push c [] = (c ∷ []) ∷ []
push c (l ∷ ls) = (c ∷ l) ∷ ls

unfoldable pub lines_of : Text → List Text
lines_of [] = []
lines_of (c ∷ s) = let rest = lines_of s in if c == 0x0A then [] ∷ rest else push c rest

-- The parts before and behind the first "=".
abbrev pub push_pair : ℕ → Option (Text × Text) → Option (Text × Text)
push_pair c none = none
push_pair c (some (key, value)) = some (c ∷ key, value)

unfoldable pub split_line : Text → Option (Text × Text)
split_line [] = none
split_line (c ∷ s) = let rest = split_line s in if c == 0x3D then some ([], s) else push_pair c rest

abbrev pub is_comment : Text → Bool
is_comment [] = false
is_comment (c ∷ s) = c == 0x23

-- The key and the value of a line, if it is not skipped.
abbrev pub pair_of : Option (Text × Text) → List (Text × Text)
pair_of none = []
pair_of (some (key, value)) =
    let k = trim key in if is_empty k then [] else (k, unescape (trim value)) ∷ []

unfoldable pub read_line : Text → List (Text × Text)
unfolding trim_front trim_back unescape_from split_line
read_line line =
    let trimmed = trim line in
    if is_empty trimmed || is_comment trimmed then [] else pair_of (split_line trimmed)

unfoldable pub read_lines : List Text → List (Text × Text)
unfolding read_line
read_lines [] = []
read_lines (l ∷ ls) = read_line l ++ read_lines ls

abbrev pub read_file : Text → List (Text × Text)
read_file file = read_lines (lines_of file)

-- A line that is written for a key with a value.
unfoldable pub print_pair : Text × Text → Text
unfolding escape
print_pair (key, value) = key ++ 0x3D ∷ (escape value ++ 0x0A ∷ [])

unfoldable pub print_pairs : List (Text × Text) → Text
unfolding print_pair
print_pairs [] = []
print_pairs (p ∷ ps) = print_pair p ++ print_pairs ps
