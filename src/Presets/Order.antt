-- ===== src/Presets/Order.antt =====
-- The order of the presets is a strict one that tells any two identities apart.
use wrac_plugin_template.Prelude.{Bool, true, false, ◌&&◌, ◌==◌, List, [], ◌∷◌, ◌≡◌, refl, arith}
use wrac_plugin_template.Prelude.Text.{Text, same}
use wrac_plugin_template.Presets.{PresetEntry, text_less, entry_less, insert}

text_less_asymm : (s t : Text) → text_less s t ≡ true → text_less t s ≡ false
unfolding text_less
text_less_asymm [] [] h = cc
text_less_asymm [] (d ∷ t) h = refl
text_less_asymm (c ∷ s) [] h = cc
text_less_asymm (c ∷ s) (d ∷ t) h = ground (arith, text_less_asymm s t)

same_of_not_less : (s t : Text) → text_less s t ≡ false → text_less t s ≡ false → same s t ≡ true
unfolding text_less same
same_of_not_less [] [] h k = refl
same_of_not_less [] (d ∷ t) h k = cc
same_of_not_less (c ∷ s) [] h k = cc
same_of_not_less (c ∷ s) (d ∷ t) h k = ground (arith, same_of_not_less s t)

-- What is not above `b` is below what `b` is below.
text_less_between :
    (x a b : Text) → text_less x a ≡ true → text_less x b ≡ false → text_less b a ≡ true
unfolding text_less
text_less_between [] [] b h k = cc
text_less_between [] (d ∷ a) [] h k = refl
text_less_between [] (d ∷ a) (e ∷ b) h k = cc
text_less_between (c ∷ x) [] b h k = cc
text_less_between (c ∷ x) (d ∷ a) [] h k = refl
text_less_between (c ∷ x) (d ∷ a) (e ∷ b) h k = ground (arith, text_less_between x a b)

-- Entries of one identity.
abbrev pub same_preset : PresetEntry → PresetEntry → Bool
same_preset a b =
    a.location_kind == b.location_kind && (same a.location b.location && same a.load_key b.load_key)

entry_less_asymm : (a b : PresetEntry) → entry_less a b ≡ true → entry_less b a ≡ false
unfolding entry_less
entry_less_asymm a b h =
    ground (arith, h, text_less_asymm a.location b.location, text_less_asymm a.load_key b.load_key)

same_preset_of_not_less :
    (a b : PresetEntry) → entry_less a b ≡ false → entry_less b a ≡ false → same_preset a b ≡ true
unfolding entry_less
same_preset_of_not_less a b h k = ground (
  arith,
  h,
  k,
  same_of_not_less a.location b.location,
  same_of_not_less a.load_key b.load_key,
  text_less_asymm a.location b.location,
)

entry_less_between :
    (x a b : PresetEntry) → entry_less x a ≡ true → entry_less x b ≡ false → entry_less b a ≡ true
unfolding entry_less
entry_less_between x a b h k = ground (
  arith,
  h,
  k,
  text_less_between x.location a.location b.location,
  text_less_between b.location x.location a.location,
  text_less_between a.location b.location x.location,
  text_less_between x.load_key a.load_key b.load_key,
)

-- Two presets of different identity may be inserted in either order.
pub insert_comm :
    (a b : PresetEntry) (xs : List PresetEntry)
    → same_preset a b ≡ false
    → insert a (insert b xs) ≡ insert b (insert a xs)
unfolding insert
insert_comm a b [] d = ground (arith, d, entry_less_asymm a b, same_preset_of_not_less a b)
insert_comm a b (x ∷ xs) d = ground (
  arith,
  d,
  insert_comm a b xs,
  entry_less_asymm a b,
  same_preset_of_not_less a b,
  entry_less_between x a b,
  entry_less_between x b a,
)
