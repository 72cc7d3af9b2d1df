-- ===== src/Prelude/Text.antt =====
-- The strings of the source as lists of bytes.
use Prim.Native.Nat.{ℕ}
use mathlib.Core.Path.{◌≡◌, refl, ◌∙◌}
use mathlib.Core.Bool.{Bool, true, false, ◌&&◌, ◌||◌}
use mathlib.Core.List.{List, [], ◌∷◌, ◌++◌}
use native.Mathlib.Omega.{arith}
use wrac_plugin_template.Prelude.Tests.{◌==◌, ==_refl}

abbrev pub Text : Type 0
Text = List ℕ

abbrev pub is_empty : Text → Bool
is_empty [] = true
is_empty (c ∷ s) = false

unfoldable pub same : Text → Text → Bool
same [] [] = true
same [] (d ∷ t) = false
same (c ∷ s) [] = false
same (c ∷ s) (d ∷ t) = c == d && same s t

pub same_refl : (s : Text) → same s s ≡ true
unfolding same
same_refl [] = refl
same_refl (c ∷ s) = rw (==_refl c) (same_refl s)

pub eq_of_same : (s t : Text) → same s t ≡ true → s ≡ t
unfolding same
eq_of_same [] [] h = refl
eq_of_same [] (d ∷ t) h = cc
eq_of_same (c ∷ s) [] h = cc
eq_of_same (c ∷ s) (d ∷ t) h = ground (arith, eq_of_same s t)

-- Whether a text is in a list, and whether each is there once.
unfoldable pub has : List Text → Text → Bool
has [] s = false
has (t ∷ ts) s = same t s || has ts s

abbrev pub AreDistinct : List Text → Type 0
AreDistinct [] = Unit {0}
AreDistinct (t ∷ ts) = (has ts t ≡ false) × AreDistinct ts

pub has-snoc : (ts : List Text) (t s : Text) → has (ts ++ t ∷ []) s ≡ (has ts s || same t s)
unfolding has
has-snoc [] t s = ground arith
has-snoc (x ∷ ts) t s = ground (arith, has-snoc ts t s)

pub same_comm : (s t : Text) → same s t ≡ same t s
unfolding same
same_comm [] [] = refl
same_comm [] (d ∷ t) = refl
same_comm (c ∷ s) [] = refl
same_comm (c ∷ s) (d ∷ t) = ground (arith, same_comm s t)

pub AreDistinct-snoc :
    (ts : List Text) (t : Text) → AreDistinct ts → has ts t ≡ false → AreDistinct (ts ++ t ∷ [])
unfolding has
AreDistinct-snoc [] t d h = (refl, tt)
AreDistinct-snoc (x ∷ ts) t d h = (
  has-snoc ts t x ∙ ground (arith, d.0, same_comm t x, h),
  AreDistinct-snoc ts t d.1 (ground (arith, h)),
)
