-- ===== src/Presets/Numbering.antt =====
-- The order of the index does not depend on how the presets were found.
use wrac_plugin_template.Prelude.{
  ℕ, zero, suc, ◌+◌, Bool, true, false, ◌&&◌, ◌||◌, ◌==◌, List, [], ◌∷◌, Option, some, ◌≡◌, refl,
  sym, ap, ap₂, ◌∙◌, inl, inr, arith, Bool-cases,
}
use mathlib.Core.Option.{some-injective}
use wrac_plugin_template.Prelude.Text.{same, same_refl, same_comm, eq_of_same}
use wrac_plugin_template.Presets.Order.{same_preset, insert_comm}
use wrac_plugin_template.Presets.{
  PresetEntry, entry_less, insert, sorted, preset_at, index_from, index_of,
}

-- The same presets in another order.
pub data Shuffled : List PresetEntry → List PresetEntry → Type 0 where
  stays : (xs : List PresetEntry) → Shuffled xs xs
  keeps : (a : PresetEntry) {xs ys : List PresetEntry} → Shuffled xs ys → Shuffled (a ∷ xs) (a ∷ ys)
  swaps : (a b : PresetEntry) (xs : List PresetEntry) → Shuffled (a ∷ b ∷ xs) (b ∷ a ∷ xs)
  joins : {xs ys zs : List PresetEntry} → Shuffled xs ys → Shuffled ys zs → Shuffled xs zs

abbrev pub has_preset : List PresetEntry → PresetEntry → Bool
has_preset [] a = false
has_preset (b ∷ bs) a = same_preset b a || has_preset bs a

-- No two presets have one identity.
abbrev pub AreUnique : List PresetEntry → Type 0
AreUnique [] = Unit {0}
AreUnique (a ∷ rest) = (has_preset rest a ≡ false) × AreUnique rest

same_preset_comm : (a b : PresetEntry) → same_preset a b ≡ same_preset b a
same_preset_comm a b =
    ground (arith, same_comm a.location b.location, same_comm a.load_key b.load_key)

has_preset-Shuffled :
    {xs ys : List PresetEntry}
    → Shuffled xs ys
    → (c : PresetEntry) → has_preset xs c ≡ has_preset ys c
has_preset-Shuffled (stays xs) c = refl
has_preset-Shuffled (keeps a p) c = ap (◌||◌ (same_preset a c)) (has_preset-Shuffled p c)
has_preset-Shuffled (swaps a b xs) c =
    Bool-swap (same_preset a c) (same_preset b c) (has_preset xs c)
  where
    Bool-swap : (p q r : Bool) → (p || (q || r)) ≡ (q || (p || r))
    Bool-swap p q r = ground arith
has_preset-Shuffled (joins p q) c = has_preset-Shuffled p c ∙ has_preset-Shuffled q c

AreUnique-Shuffled : {xs ys : List PresetEntry} → Shuffled xs ys → AreUnique xs → AreUnique ys
AreUnique-Shuffled (stays xs) u = u
AreUnique-Shuffled (keeps a p) u = (sym (has_preset-Shuffled p a) ∙ u.0, AreUnique-Shuffled p u.1)
AreUnique-Shuffled (swaps a b xs) u =
    (ground (arith, u.0, u.1.0, same_preset_comm a b), (ground (arith, u.0), u.1.1))
AreUnique-Shuffled (joins p q) u = AreUnique-Shuffled q (AreUnique-Shuffled p u)

-- In whatever order the file system hands the files over, presets of which no two have the same
-- kind, location and key are numbered the same way.
pub sorted-Shuffled :
    {xs ys : List PresetEntry} → Shuffled xs ys → AreUnique xs → sorted xs ≡ sorted ys
unfolding sorted
sorted-Shuffled (stays xs) u = refl
sorted-Shuffled (keeps a p) u = ap (insert a) (sorted-Shuffled p u.1)
sorted-Shuffled (swaps a b xs) u =
    insert_comm a b (sorted xs) (ground (arith, u.0, same_preset_comm a b))
sorted-Shuffled (joins p q) u = sorted-Shuffled p u ∙ sorted-Shuffled q (AreUnique-Shuffled p u)

insert-Shuffled : (a : PresetEntry) (xs : List PresetEntry) → Shuffled (a ∷ xs) (insert a xs)
unfolding insert
insert-Shuffled a [] = stays (a ∷ [])
insert-Shuffled a (b ∷ bs) = elim (Bool-cases (entry_less b a)) [
  | inl e ↦ rw e (joins (swaps a b bs) (keeps b (insert-Shuffled a bs)))
  | inr e ↦ rw e (stays (a ∷ b ∷ bs))
]

-- Sorting loses no preset and adds none.
pub Shuffled-sorted : (xs : List PresetEntry) → Shuffled xs (sorted xs)
unfolding sorted
Shuffled-sorted [] = stays []
Shuffled-sorted (a ∷ xs) = joins (keeps a (Shuffled-sorted xs)) (insert-Shuffled a (sorted xs))

abbrev found_from : ℕ → List PresetEntry → PresetEntry → Option ℕ
found_from i ps e = index_from i ps e.location_kind e.location e.load_key

same_preset_refl : (a : PresetEntry) → same_preset a a ≡ true
same_preset_refl a = rw (same_refl a.location, same_refl a.load_key) (ground arith)

same_preset-like :
    (b x e : PresetEntry) → same_preset x e ≡ true → same_preset b x ≡ same_preset b e
same_preset-like b x e h =
    let kind : x.location_kind ≡ e.location_kind = ground (arith, h) in
    let location : x.location ≡ e.location = eq_of_same x.location e.location (ground (arith, h)) in
    let key : x.load_key ≡ e.load_key = eq_of_same x.load_key e.load_key (ground (arith, h)) in
    λ i. b.location_kind == kind i && (same b.location (location i) && same b.load_key (key i))

has_preset-like :
    (ps : List PresetEntry) (x e : PresetEntry)
    → same_preset x e ≡ true
    → has_preset ps x ≡ has_preset ps e
has_preset-like [] x e h = refl
has_preset-like (b ∷ ps) x e h = ap₂ ◌||◌ (same_preset-like b x e h) (has_preset-like ps x e h)

has_preset-at :
    (j : ℕ) (ps : List PresetEntry) (e : PresetEntry)
    → preset_at ps j ≡ some e
    → has_preset ps e ≡ true
has_preset-at j [] e p = cc
has_preset-at zero (x ∷ ps) e p =
    let is_it : same_preset x e ≡ true = rw (some-injective x e p) (same_preset_refl e) in
    rw is_it refl
has_preset-at (suc j) (x ∷ ps) e p = ground (arith, has_preset-at j ps e p)

index_from-at :
    (i j : ℕ) (ps : List PresetEntry) (e : PresetEntry)
    → AreUnique ps
    → preset_at ps j ≡ some e
    → found_from i ps e ≡ some (i + j)
unfolding index_from
index_from-at i j [] e u p = cc
index_from-at i zero (x ∷ ps) e u p =
    let is_it : same_preset x e ≡ true = rw (some-injective x e p) (same_preset_refl e) in
    rw is_it (ap some (omega arith))
index_from-at i (suc j) (x ∷ ps) e u p = elim (Bool-cases (same_preset x e)) [
  | inl s ↦ absurd (ground (arith, u.0, has_preset-like ps x e s, has_preset-at j ps e p))
  | inr s ↦ rw s (index_from-at (i + 1) j ps e u.1 p ∙ ap some (omega arith))
]

-- Of an index without two presets of one identity, a host that asks for the preset at a place and
-- then for the place of that preset's identity is told the place it began with.
pub index_of-preset_at :
    (found : List PresetEntry) (j : ℕ) (e : PresetEntry)
    → AreUnique found
    → preset_at (sorted found) j ≡ some e
    → index_of (sorted found) e.location_kind (some e.location) (some e.load_key) ≡ some j
unfolding index_of
index_of-preset_at found j e u p =
    index_from-at 0 j (sorted found) e (AreUnique-Shuffled (Shuffled-sorted found) u) p
    ∙ ap some (omega arith)
