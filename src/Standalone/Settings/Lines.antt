-- ===== src/Standalone/Settings/Lines.antt =====
-- What is written as lines of keys and values is read back.
use wrac_plugin_template.Prelude.{
  true, false, ◌||◌, ◌==◌, if◌then◌else◌, List, [], ◌∷◌, ◌++◌, append_assoc, All, Option, some, ◌≡◌,
  refl, sym, ap, ap₂, ◌∙◌, arith,
}
use wrac_plugin_template.Prelude.Text.{Text, is_empty}
use wrac_plugin_template.Standalone.Settings.{
  trim_front, trim_back, escape, unescape, push, lines_of, push_pair, split_line, is_comment,
  pair_of, read_line, read_lines, read_file, print_pair, print_pairs,
}
use wrac_plugin_template.Standalone.Settings.Escapes.{
  ends, all_bytes, no_space, not_blank, is_key_byte, is_key, is_value, trim-id, ends-append,
  unescape-escape, starts-escape, escape-nonempty, ends-append_nonempty, ends-escape, no_end,
  all_bytes-append, no_end-escape,
}

no_end-key : (key : Text) → all_bytes is_key_byte key ≡ true → all_bytes no_end key ≡ true
no_end-key [] h = refl
no_end-key (c ∷ s) h = ground (arith, h, no_end-key s (ground (arith, h)))

pub lines_of-line :
    (l t : Text) → all_bytes no_end l ≡ true → lines_of (l ++ 0x0A ∷ t) ≡ l ∷ lines_of t
unfolding lines_of
lines_of-line [] t h = refl
lines_of-line (c ∷ l) t h =
    let e : (c == 0x0A) ≡ false = ground (arith, h) in
    ap (λ (rest : List Text). if c == 0x0A then [] ∷ rest else push c rest)
      (lines_of-line l t (ground (arith, h)))
    ∙ ap (λ b. if b then [] ∷ (l ∷ lines_of t) else (c ∷ l) ∷ lines_of t) e

split_line-key :
    (key t : Text) → all_bytes is_key_byte key ≡ true → split_line (key ++ 0x3D ∷ t) ≡ some (key, t)
unfolding split_line
split_line-key [] t h = refl
split_line-key (c ∷ key) t h =
    let e : (c == 0x3D) ≡ false = ground (arith, h) in
    ap
      (λ (rest : Option (Text × Text)).
        if c == 0x3D then some ([], key ++ 0x3D ∷ t) else push_pair c rest)
      (split_line-key key t (ground (arith, h)))
    ∙ ap (λ b. if b then some ([], key ++ 0x3D ∷ t) else some (c ∷ key, t)) e

pair_of-key :
    (key v : Text)
    → is_key key ≡ true
    → is_value v ≡ true
    → pair_of (some (key, escape v)) ≡ (key, v) ∷ []
unfolding trim_front trim_back
pair_of-key key v h k =
    ap₂ (λ (a b : Text). if is_empty a then [] else (a, unescape b) ∷ [])
      (trim-id key (ground (arith, h)) (ground (arith, h)))
      (trim-id (escape v) (starts-escape v (ground (arith, k))) (ends-escape v (ground (arith, k))))
    ∙ ap (λ b. if b then [] else (key, unescape (escape v)) ∷ []) empty
    ∙ ap (λ (x : Text). (key, x) ∷ []) (unescape-escape v)
  where
    empty : is_empty key ≡ false
    empty = ground (arith, h)

ends-line : (key v : Text) → ends not_blank v ≡ true → ends no_space (key ++ 0x3D ∷ escape v) ≡ true
unfolding escape
ends-line key [] h = ends-append no_space key 0x3D []
ends-line key (c ∷ v) h =
    ends-append no_space key 0x3D (escape (c ∷ v))
    ∙ ends-append_nonempty no_space (0x3D ∷ []) (escape (c ∷ v)) (escape-nonempty c v)
    ∙ ends-escape (c ∷ v) h

read_line-pair :
    (key v : Text)
    → is_key key ≡ true
    → is_value v ≡ true
    → read_line (key ++ 0x3D ∷ escape v) ≡ (key, v) ∷ []
unfolding read_line
read_line-pair [] v h k = ground (arith, h)
read_line-pair (c ∷ key) v h k =
    let line = c ∷ (key ++ 0x3D ∷ escape v) in
    let comment : (c == 0x23) ≡ false = ground (arith, h) in
    ap (λ (t : Text). if is_empty t || is_comment t then [] else pair_of (split_line t))
      (trim-id line (ground (arith, h)) (ends-line (c ∷ key) v (ground (arith, k))))
    ∙ ap (λ b. if b then [] else pair_of (split_line line)) comment
    ∙ ap pair_of (split_line-key (c ∷ key) (escape v) (ground (arith, h)))
    ∙ pair_of-key (c ∷ key) v h k

abbrev pub IsPair : Text × Text → Type 0
IsPair (key, value) = (is_key key ≡ true) × (is_value value ≡ true)

-- Lines of pairs, whatever comes after them.
pub read_file-print_pairs :
    (pairs : List (Text × Text)) (t : Text)
    → All IsPair pairs
    → read_file (print_pairs pairs ++ t) ≡ pairs ++ read_file t
unfolding read_lines lines_of print_pairs print_pair
read_file-print_pairs [] t h = refl
read_file-print_pairs ((key, value) ∷ pairs) t h =
    let line = key ++ 0x3D ∷ escape value in
    let rest = print_pairs pairs ++ t in
    let split : print_pairs ((key, value) ∷ pairs) ++ t ≡ line ++ 0x0A ∷ rest =
      append_assoc (key ++ 0x3D ∷ (escape value ++ 0x0A ∷ [])) (print_pairs pairs) t
      ∙ append_assoc key (0x3D ∷ (escape value ++ 0x0A ∷ [])) rest
      ∙ ap (λ (x : Text). key ++ 0x3D ∷ x) (append_assoc (escape value) (0x0A ∷ []) rest)
      ∙ sym (append_assoc key (0x3D ∷ escape value) (0x0A ∷ rest)) in
    let clean : all_bytes no_end line ≡ true =
      all_bytes-append no_end key (0x3D ∷ escape value)
      ∙ ground (arith, no_end-key key (ground (arith, h.0.0)), no_end-escape value) in
    ap read_file split
    ∙ ap read_lines (lines_of-line line rest clean)
    ∙ ap₂ (λ (x y : List (Text × Text)). x ++ y) (read_line-pair key value h.0.0 h.0.1)
        (read_file-print_pairs pairs t h.1)
