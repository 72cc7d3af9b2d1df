-- ===== src/Standalone/Settings/Escapes.antt =====
-- What is escaped comes back, and can stand at the end of a line.
use wrac_plugin_template.Prelude.{
  ℕ, Bool, true, false, not, ◌&&◌, ◌==◌, if◌then◌else◌, [], ◌∷◌, ◌++◌, ◌≡◌, refl, sym, ap, ◌∙◌, inl,
  inr, arith, Bool-cases,
}
use wrac_plugin_template.Prelude.Text.{Text, is_empty}
use wrac_plugin_template.Standalone.Settings.{
  is_space, trim_front, trim_back, trim, escaped, escape, unescaped, unescape_from, unescape,
  is_comment,
}

-- The first and the last byte satisfy a test, where there is one.
abbrev pub starts : (ℕ → Bool) → Text → Bool
starts ok [] = true
starts ok (c ∷ s) = ok c

abbrev pub ends : (ℕ → Bool) → Text → Bool
ends ok [] = true
ends ok (c ∷ []) = ok c
ends ok (c ∷ d ∷ s) = ends ok (d ∷ s)

abbrev pub all_bytes : (ℕ → Bool) → Text → Bool
all_bytes ok [] = true
all_bytes ok (c ∷ s) = ok c && all_bytes ok s

abbrev pub no_space : ℕ → Bool
no_space c = not (is_space c)

abbrev pub not_blank : ℕ → Bool
not_blank c = not (c == 0x20)

-- A byte that a key may have: no "=", no backslash, no end of a line, no tab.
abbrev pub is_key_byte : ℕ → Bool
is_key_byte c =
    not (c == 0x3D)
    && (not (c == 0x5C) && (not (c == 0x0A) && (not (c == 0x0D) && not (c == 0x09))))

abbrev pub is_key : Text → Bool
is_key key =
    not (is_empty key)
    && (not (is_comment key)
        && (starts no_space key && (ends no_space key && all_bytes is_key_byte key)))

-- A value that neither begins nor ends with a blank.
abbrev pub is_value : Text → Bool
is_value value = starts not_blank value && ends not_blank value

trim_front-starts : (s : Text) → starts no_space s ≡ true → trim_front s ≡ s
unfolding trim_front
trim_front-starts [] h = refl
trim_front-starts (c ∷ s) h = let e : is_space c ≡ false = ground (arith, h) in rw e refl

trim_back-ends : (s : Text) → ends no_space s ≡ true → trim_back s ≡ s
unfolding trim_back
trim_back-ends [] h = refl
trim_back-ends (c ∷ []) h = let e : is_space c ≡ false = ground (arith, h) in rw e refl
trim_back-ends (c ∷ d ∷ s) h =
    ap (λ (rest : Text). if is_empty rest && is_space c then [] else c ∷ rest)
      (trim_back-ends (d ∷ s) h)

pub trim-id : (s : Text) → starts no_space s ≡ true → ends no_space s ≡ true → trim s ≡ s
trim-id s h k = ap trim_back (trim_front-starts s h) ∙ trim_back-ends s k

pub ends-append :
    (ok : ℕ → Bool) (xs : Text) (c : ℕ) (ys : Text) → ends ok (xs ++ c ∷ ys) ≡ ends ok (c ∷ ys)
ends-append ok [] c ys = refl
ends-append ok (x ∷ []) c ys = refl
ends-append ok (x ∷ y ∷ xs) c ys = ends-append ok (y ∷ xs) c ys

-- Each byte by itself: what is escaped begins and ends well, has no end of a line, and comes back.
data Escapes (c : ℕ) : Type 0 where
  plain :
      escaped c ≡ c ∷ []
      → (c == 0x5C) ≡ false
      → (is_space c ≡ true → (c == 0x20) ≡ true)
      → Escapes c
  with : (d : ℕ) → escaped c ≡ 0x5C ∷ d ∷ [] → unescaped d ≡ c ∷ [] → is_space d ≡ false → Escapes c

escaped-Escapes : (c : ℕ) → Escapes c
escaped-Escapes c = elim (Bool-cases (c == 0x5C)) [
  | inl e ↦ with 0x5C (rw e refl) (ap (λ x. x ∷ []) (ground (arith, e))) refl
  | inr n ↦ elim (Bool-cases (c == 0x0A)) [
    | inl e ↦ with 0x6E (rw (n, e) refl) (ap (λ x. x ∷ []) (ground (arith, e))) refl
    | inr n2 ↦ elim (Bool-cases (c == 0x0D)) [
      | inl e ↦ with 0x72 (rw (n, n2, e) refl) (ap (λ x. x ∷ []) (ground (arith, e))) refl
      | inr n3 ↦ elim (Bool-cases (c == 0x09)) [
        | inl e ↦ with 0x74 (rw (n, n2, n3, e) refl) (ap (λ x. x ∷ []) (ground (arith, e))) refl
        | inr n4 ↦ plain (rw (n, n2, n3, n4) refl) n (λ h. ground (arith, h, n2, n3, n4))
      ]
    ]
  ]
]

unescape_from-plain :
    (c : ℕ) (t : Text)
    → (c == 0x5C) ≡ false
    → unescape_from false (c ∷ t) ≡ c ∷ unescape_from false t
unfolding unescape_from
unescape_from-plain c t n = ap (λ b. (if b then [] else c ∷ []) ++ unescape_from b t) n

pub unescape-escape : (v : Text) → unescape (escape v) ≡ v
unfolding escape unescape_from
unescape-escape [] = refl
unescape-escape (c ∷ s) = elim (escaped-Escapes c) [
  | plain e n b ↦
      ap (λ (x : Text). unescape (x ++ escape s)) e
      ∙ unescape_from-plain c (escape s) n
      ∙ ap (◌∷◌ c) (unescape-escape s)
  | with d e u n ↦
      ap (λ (x : Text). unescape (x ++ escape s)) e
      ∙ ap (λ (x : Text). x ++ unescape (escape s)) u
      ∙ ap (◌∷◌ c) (unescape-escape s)
]

pub starts-escape : (v : Text) → starts not_blank v ≡ true → starts no_space (escape v) ≡ true
unfolding escape
starts-escape [] h = refl
starts-escape (c ∷ s) h = elim (escaped-Escapes c) [
  | plain e n b ↦
      ap (λ (x : Text). starts no_space (x ++ escape s)) e ∙ elim (Bool-cases (is_space c)) [
        | inl i ↦ absurd (true-ne-false (sym (b i) ∙ blank))
        | inr i ↦ ap not i
      ]
  | with d e u n ↦ ap (λ (x : Text). starts no_space (x ++ escape s)) e
]
  where
    true-ne-false : true ≡ false → ⊥
    true-ne-false e = ground (arith, e)

    blank : (c == 0x20) ≡ false
    blank = ground (arith, h)

pub escape-nonempty : (c : ℕ) (s : Text) → is_empty (escape (c ∷ s)) ≡ false
unfolding escape
escape-nonempty c s = elim (escaped-Escapes c) [
  | plain e n b ↦ ap (λ (x : Text). is_empty (x ++ escape s)) e
  | with d e u n ↦ ap (λ (x : Text). is_empty (x ++ escape s)) e
]

pub ends-append_nonempty :
    (ok : ℕ → Bool) (xs ys : Text) → is_empty ys ≡ false → ends ok (xs ++ ys) ≡ ends ok ys
ends-append_nonempty ok xs [] h = ground (arith, h)
ends-append_nonempty ok xs (c ∷ ys) h = ends-append ok xs c ys

pub ends-escape : (v : Text) → ends not_blank v ≡ true → ends no_space (escape v) ≡ true
unfolding escape
ends-escape [] h = refl
ends-escape (c ∷ []) h = elim (escaped-Escapes c) [
  | plain e n b ↦
      ap (λ (x : Text). ends no_space (x ++ [])) e
      ∙ elim (Bool-cases (is_space c)) [ inl i ↦ ground (arith, b i, h) | inr i ↦ ap not i ]
  | with d e u n ↦ ap (λ (x : Text). ends no_space (x ++ [])) e ∙ ap not n
]
ends-escape (c ∷ d ∷ s) h =
    ends-append_nonempty no_space (escaped c) (escape (d ∷ s)) (escape-nonempty d s)
    ∙ ends-escape (d ∷ s) h

-- No line ends inside a line.
abbrev pub no_end : ℕ → Bool
no_end c = not (c == 0x0A)

pub all_bytes-append :
    (ok : ℕ → Bool) (xs ys : Text) → all_bytes ok (xs ++ ys) ≡ (all_bytes ok xs && all_bytes ok ys)
all_bytes-append ok [] ys = refl
all_bytes-append ok (x ∷ xs) ys = ground (arith, all_bytes-append ok xs ys)

pub no_end-escape : (v : Text) → all_bytes no_end (escape v) ≡ true
unfolding escape
no_end-escape [] = refl
no_end-escape (c ∷ s) = elim (escaped-Escapes c) [
  | plain e n b ↦
      ap (λ (x : Text). all_bytes no_end (x ++ escape s)) e ∙ elim (Bool-cases (is_space c)) [
        | inl i ↦ ground (arith, b i, no_end-escape s)
        | inr i ↦ ground (arith, i, no_end-escape s)
      ]
  | with d e u n ↦
      ap (λ (x : Text). all_bytes no_end (x ++ escape s)) e ∙ ground (arith, n, no_end-escape s)
]
