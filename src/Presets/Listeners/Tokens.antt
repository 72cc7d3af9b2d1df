-- ===== src/Presets/Listeners/Tokens.antt =====
-- The tokens in the list ascend, and the loop of `finish` finds the first that is ahead.
use wrac_plugin_template.Prelude.{
  ℕ, ◌+◌, ◌≤◌, ◌<◌, Bool, true, false, ◌&&◌, ◌||◌, ◌==◌, ltb, leb, List, [], ◌∷◌, ◌++◌, none, some,
  ◌≡◌, refl, inl, inr, arith, Bool-cases,
}
use wrac_plugin_template.Presets.Listeners.{
  mem, Phase, crawling, flagged, looking, calling, finished, erased, find_listener,
}

-- The tokens from above `low` on and below `high`, each above the one before.
abbrev pub AreBetween : ℕ → ℕ → List ℕ → Type 0
AreBetween low high [] = Unit {0}
AreBetween low high (x ∷ xs) = (low < x) × (x < high) × AreBetween x high xs

-- Whether the loop of `finish` has a token before it.
abbrev pub is_ahead : ℕ → Phase → Bool
is_ahead t crawling = true
is_ahead t flagged = true
is_ahead t (looking last ceiling) = ltb last t && leb t ceiling
is_ahead t (calling u ceiling) = ltb u t && leb t ceiling
is_ahead t finished = false

abbrev pub is_set : Phase → Bool
is_set crawling = false
is_set flagged = true
is_set (looking last ceiling) = true
is_set (calling u ceiling) = true
is_set finished = true

pub mem-snoc : (xs : List ℕ) (x t : ℕ) → mem (xs ++ x ∷ []) t ≡ (mem xs t || x == t)
mem-snoc [] x t = ground arith
mem-snoc (y ∷ xs) x t = ground (arith, mem-snoc xs x t)

pub mem-erased_ne : (xs : List ℕ) (x t : ℕ) → (x == t) ≡ false → mem (erased x xs) t ≡ mem xs t
unfolding erased
mem-erased_ne [] x t h = refl
mem-erased_ne (y ∷ xs) x t h = ground (arith, mem-erased_ne xs x t h)

pub AreBetween-low :
    (low low' high : ℕ) (xs : List ℕ)
    → low ≤ low'
    → AreBetween low' high xs
    → AreBetween low high xs
AreBetween-low low low' high [] l a = tt
AreBetween-low low low' high (x ∷ xs) l a = (omega arith, a.1, a.2)

pub AreBetween-erased :
    (low high t : ℕ) (xs : List ℕ) → AreBetween low high xs → AreBetween low high (erased t xs)
unfolding erased
AreBetween-erased low high t [] a = tt
AreBetween-erased low high t (x ∷ xs) a = elim (Bool-cases (x == t)) [
  | inl e ↦
      rw e
        (AreBetween-low low x high (erased t xs) (omega arith) (AreBetween-erased x high t xs a.2))
  | inr e ↦ rw e (a.0, a.1, AreBetween-erased x high t xs a.2)
]

pub AreBetween-snoc :
    (low high : ℕ) (xs : List ℕ)
    → low < high
    → AreBetween low high xs
    → AreBetween low (high + 1) (xs ++ high ∷ [])
AreBetween-snoc low high [] l a = (l, omega arith, tt)
AreBetween-snoc low high (x ∷ xs) l a = (a.0, omega arith, AreBetween-snoc x high xs a.1 a.2)

-- The listener that is found is the first: none that is ahead is passed over.
pub find-none :
    (last ceiling t : ℕ) (xs : List ℕ)
    → find_listener last ceiling xs ≡ none
    → mem xs t ≡ true
    → (ltb last t && leb t ceiling) ≡ false
unfolding find_listener
find-none last ceiling t [] e m = cc
find-none last ceiling t (x ∷ xs) e m = ground (arith, find-none last ceiling t xs)

pub mem-between :
    (low high t : ℕ) (xs : List ℕ)
    → AreBetween low high xs
    → mem xs t ≡ true
    → (low < t) × (t < high)
mem-between low high t [] a m = cc
mem-between low high t (x ∷ xs) a m = ground (arith, mem-between x high t xs a.2)

pub find-some :
    (last ceiling t u low high : ℕ) (xs : List ℕ)
    → AreBetween low high xs
    → find_listener last ceiling xs ≡ some u
    → mem xs t ≡ true
    → (ltb last t && leb t ceiling) ≡ true
    → u ≤ t
unfolding find_listener
find-some last ceiling t u low high [] a e m h = cc
find-some last ceiling t u low high (x ∷ xs) a e m h =
    ground (arith, mem-between x high t xs a.2, find-some last ceiling t u x high xs a.2)

pub find-within :
    (last ceiling u : ℕ) (xs : List ℕ)
    → find_listener last ceiling xs ≡ some u
    → (last < u) × (u ≤ ceiling)
unfolding find_listener
find-within last ceiling u [] e = cc
find-within last ceiling u (x ∷ xs) e = ground (arith, find-within last ceiling u xs)

pub ahead-unset : (t : ℕ) (p : Phase) → is_set p ≡ false → is_ahead t p ≡ true
ahead-unset t crawling e = refl
ahead-unset t flagged e = cc
ahead-unset t (looking last ceiling) e = cc
ahead-unset t (calling u ceiling) e = cc
ahead-unset t finished e = cc
