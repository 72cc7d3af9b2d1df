-- ===== src/Vst3/Parameter/PresetSelector.antt =====
-- The number of programs that a preset selector publishes.
use wrac_plugin_template.Prelude.{
  ◌-◌, ◌^◌, ◌<◌, ℕ, zero, suc, List, [], ◌∷◌, true, false, ◌≡◌, refl, ap, ◌∙◌, bit_and, bit_or,
  arith,
}
use native.Mathlib.Nat.{one-le-pow}
use wrac_plugin_template.Prelude.Int.{ℤ, pos, negsuc}
use wrac_plugin_template.Prelude.Double.{Doubles}
use wrac_plugin_template.Prelude.OneBit.{set-test, clear-test}
use wrac_plugin_template.Vst3.Parameter.{
  VstFlags, ClapFlags, ControllerNumbers, has_flag, is_positive, steps_of, next_int, Vst3Parameter,
  preset_count, resize_preset_selector, create_preset_selector, unsized_selector,
}

-- None for a negative number.
abbrev pub programs : ℤ → ℤ
programs (pos n) = pos n
programs (negsuc n) = pos 0

-- What was asked for last.
abbrev pub last_of : ℤ → List ℤ → ℤ
last_of n [] = n
last_of n (m ∷ later) = last_of m later

set-has : (k f : ℕ) → has_flag (bit_or f (2 ^ k)) (2 ^ k) ≡ true
set-has k f = rw (set-test k f) (ground (arith, one-le-pow k 2 (omega arith)))

clear-has : (k f : ℕ) → k < 32 → has_flag (bit_and f (2 ^ 32 - 1 - 2 ^ k)) (2 ^ k) ≡ false
clear-has k f h = rw (clear-test 32 k f h) refl

positive : (n : ℕ) → is_positive (pos (suc n)) ≡ true
positive n = ground arith

steps-next : (n : ℕ) → 0 < n → next_int (pos (steps_of (pos n))) ≡ pos n
unfolding next_int steps_of
steps-next n h = ap pos (ground arith)

module _ (doubles : Doubles) (of_int single_of_int : ℤ → doubles.Double)
    (to_int32 : doubles.Double → ℤ) (vst : VstFlags) (clap : ClapFlags)
    (controllers : ControllerNumbers) where
  abbrev Selector : Type 0
  Selector = Vst3Parameter doubles of_int single_of_int to_int32 vst clap controllers

  abbrev resize : Selector → ℤ → Selector
  resize = resize_preset_selector doubles of_int single_of_int to_int32 vst clap controllers

  abbrev count : Selector → ℤ
  count = preset_count doubles of_int single_of_int to_int32 vst clap controllers

  abbrev pub resize_all : Selector → List ℤ → Selector
  resize_all p [] = p
  resize_all p (n ∷ later) = resize_all (resize p n) later

  count-resize :
      (k : ℕ)
      → k < 32
      → vst.is_hidden ≡ 2 ^ k
      → (p : Selector) → p.is_preset ≡ true
      → (n : ℤ) → count (resize p n) ≡ programs n
  unfolding preset_count resize_preset_selector
  count-resize k h e p s (negsuc n) = rw (s, e, set-has k p.info.flags) refl
  count-resize k h e p s (pos zero) = rw (s, e, set-has k p.info.flags) refl
  count-resize k h e p s (pos (suc n)) =
      rw (s, e, positive n, clear-has k p.info.flags h) (steps-next (suc n) (omega arith))

  keeps : (p : Selector) (n : ℤ) → (resize p n).is_preset ≡ p.is_preset
  unfolding resize_preset_selector
  keeps p n = refl

  count-resize_all :
      (k : ℕ)
      → k < 32
      → vst.is_hidden ≡ 2 ^ k
      → (p : Selector) → p.is_preset ≡ true
      → (n : ℤ) (later : List ℤ)
      → count (resize_all (resize p n) later) ≡ programs (last_of n later)
  count-resize_all k h e p s n [] = count-resize k h e p s n
  count-resize_all k h e p s n (m ∷ later) =
      count-resize_all k h e (resize p n) (keeps p n ∙ s) m later

  -- Where `kIsHidden` is one of 32 bits, a selector publishes as many programs as it was last told,
  -- at its making or by any sequence of resizes, and none for a negative number.
  pub create_preset_selector-Publishes :
      (k : ℕ)
      → k < 32
      → vst.is_hidden ≡ 2 ^ k
      → (id : ℕ) (n : ℤ) (later : List ℤ)
      → count (
          resize_all
            (create_preset_selector doubles of_int single_of_int to_int32 vst clap controllers id n)
            later)
        ≡ programs (last_of n later)
  unfolding create_preset_selector
  create_preset_selector-Publishes k h e id n later =
      count-resize_all k h e
        (unsized_selector doubles of_int single_of_int to_int32 vst clap controllers id) refl n
        later
