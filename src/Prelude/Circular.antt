-- ===== src/Prelude/Circular.antt =====
-- Reading and writing an array round its end. Positions run on without wrapping; a position `t`
-- stands for the index `t % size`.
use Prim.Native.Nat.{ℕ, zero, suc, ◌+◌, ◌-◌, ◌%◌, ◌≤◌, ◌<◌}
use mathlib.Core.Path.{◌≡◌, refl, sym, ap, ap₂, ◌∙◌}
use mathlib.Core.Logic.{◌≢◌}
use mathlib.Core.List.{List, [], ◌∷◌, ◌++◌}
use native.Mathlib.Nat.{mod-add-mod, mod-eq-sub-mod, mod-lt, mod-eq_of_lt}
use native.Mathlib.Decide.{dec_lt}
use native.Mathlib.Omega.{arith}
use wrac_plugin_template.Prelude.Lists.{length, get_or, set, get_or-set_self}
use wrac_plugin_template.Prelude.Lists.{get_or-set_ne}

-- Two positions less than a full turn apart have different indices.
pub mod-ne : (size t w : ℕ) → 0 < size → t < w → w < t + size → t % size ≢ w % size
mod-ne size t w h lt near e = elim (dec_lt (t % size + (w - t)) size) [
  | yes p ↦ omega (arith, wraps, e, mod-eq_of_lt p)
  | no p ↦ omega (
    arith,
    wraps,
    e,
    mod-lt t h,
    mod-eq-sub-mod {n = t % size + (w - t)} {m = size} (omega arith),
    mod-eq_of_lt {n = t % size + (w - t) - size} {m = size} (omega (arith, mod-lt t h)),
  )
]
  where
    wraps : w % size ≡ (t % size + (w - t)) % size
    wraps = sym (mod-add-mod t size (w - t) ∙ ap (λ (n : ℕ). n % size) (omega arith))

module _ {ℓ} {A : Type ℓ} (size : ℕ) (d : A) where
  -- The `n` cells from position `t` on.
  abbrev pub cells : List A → ℕ → ℕ → List A
  cells buf t zero = []
  cells buf t (suc n) = get_or buf (t % size) d ∷ cells buf (t + 1) n

  pub length-cells : (buf : List A) (t n : ℕ) → length (cells buf t n) ≡ n
  length-cells buf t zero = refl
  length-cells buf t (suc n) = ap suc (length-cells buf (t + 1) n)

  -- Only the index of the first position counts.
  pub cells-mod : (buf : List A) (t u n : ℕ) → t % size ≡ u % size → cells buf t n ≡ cells buf u n
  cells-mod buf t u zero e = refl
  cells-mod buf t u (suc n) e =
      ap₂ ◌∷◌ (ap (λ (i : ℕ). get_or buf i d) e) (cells-mod buf (t + 1) (u + 1) n after)
    where
      after : (t + 1) % size ≡ (u + 1) % size
      after = sym (mod-add-mod t size 1) ∙ ap (λ (i : ℕ). (i + 1) % size) e ∙ mod-add-mod u size 1

  pub cells-add :
      (buf : List A) (t n m : ℕ) → cells buf t (n + m) ≡ cells buf t n ++ cells buf (t + n) m
  cells-add buf t zero m = ap₂ (λ (k : ℕ) (l : ℕ). cells buf l k) (omega arith) (omega arith)
  cells-add buf t (suc n) m =
      let regroup : suc n + m ≡ suc (n + m) = omega arith in
      let moved : t + 1 + n ≡ t + suc n = omega arith in
      rw (regroup, ← moved) (ap (◌∷◌ (get_or buf (t % size) d)) (cells-add buf (t + 1) n m))

  -- A write outside the window leaves it.
  pub cells-set_ne :
      (buf : List A) (t n w : ℕ) (v : A)
      → 0 < size
      → t + n ≤ w
      → w < t + size
      → cells (set buf (w % size) v) t n ≡ cells buf t n
  cells-set_ne buf t zero w v h below near = refl
  cells-set_ne buf t (suc n) w v h below near =
      ap₂ ◌∷◌
        (get_or-set_ne buf (w % size) (t % size) v d
          (λ e. mod-ne size t w h (omega arith) near (sym e)))
        (cells-set_ne buf (t + 1) n w v h (omega arith) (omega arith))

  -- A write just behind the window extends it.
  pub cells-set_end :
      (buf : List A) (t n : ℕ) (v : A)
      → length buf ≡ size
      → n < size
      → cells (set buf ((t + n) % size) v) t (n + 1) ≡ cells buf t n ++ v ∷ []
  cells-set_end buf t n v e h =
      cells-add (set buf ((t + n) % size) v) t n 1
      ∙ ap₂ ◌++◌ (cells-set_ne buf t n (t + n) v (omega arith) (omega arith) (omega arith)) (
          ap (λ (a : A). a ∷ [])
            (get_or-set_self buf ((t + n) % size) v d
              (omega (arith, mod-lt (t + n) {m = size} (omega arith)))))
