-- ===== src/Prelude/OneBit.antt =====
-- One bit of a number: set, cleared and tested.
use Prim.Native.Nat.{ℕ, zero, suc, ◌-◌, ◌/◌, ◌^◌, ◌<◌, bit_and, bit_or}
use mathlib.Core.Path.{◌≡◌, refl, ap}
use native.Mathlib.Nat.{pow-suc, one-le-pow}
use native.Mathlib.Omega.{arith}
use wrac_plugin_template.Prelude.Bits.{bit_or-halves, bit_and-halves, bit_and-mask}

-- Of the bit `k`, all but the lowest digit.
power-half : (k : ℕ) → 2 ^ suc k / 2 ≡ 2 ^ k
power-half k = omega (arith, pow-suc 2 k)

others-half : (w k : ℕ) → (2 ^ suc w - 1 - 2 ^ suc k) / 2 ≡ 2 ^ w - 1 - 2 ^ k
others-half w k = omega (arith, pow-suc 2 k, pow-suc 2 w)

pub set-test : (k f : ℕ) → bit_and (bit_or f (2 ^ k)) (2 ^ k) ≡ 2 ^ k
set-test zero f = omega (arith, bit_and-mask 1 (bit_or f 1), bit_or-halves f 1)
set-test (suc k) f =
    let p = 2 ^ suc k in
    let low : bit_or f p / 2 ≡ bit_or (f / 2) (2 ^ k) =
      omega (arith, bit_or-halves f p, ap (bit_or (f / 2)) (power-half k)) in
    let high : bit_and (bit_or f p / 2) (p / 2) ≡ bit_and (bit_or (f / 2) (2 ^ k)) (2 ^ k) =
      rw (low, power-half k) refl in
    omega (arith, pow-suc 2 k, bit_and-halves (bit_or f p) p, high, set-test k (f / 2))

pub clear-test : (w k f : ℕ) → k < w → bit_and (bit_and f (2 ^ w - 1 - 2 ^ k)) (2 ^ k) ≡ 0
clear-test zero k f h = absurd (omega arith)
clear-test (suc w) zero f h =
    let m = 2 ^ suc w - 1 - 1 in
    omega (
      arith,
      pow-suc 2 w,
      one-le-pow w 2 (omega arith),
      bit_and-mask 1 (bit_and f m),
      bit_and-halves f m,
    )
clear-test (suc w) (suc k) f h =
    let m = 2 ^ suc w - 1 - 2 ^ suc k in
    let p = 2 ^ suc k in
    let low : bit_and f m / 2 ≡ bit_and (f / 2) (2 ^ w - 1 - 2 ^ k) =
      omega (arith, bit_and-halves f m, ap (bit_and (f / 2)) (others-half w k)) in
    let high : bit_and (bit_and f m / 2) (p / 2)
        ≡ bit_and (bit_and (f / 2) (2 ^ w - 1 - 2 ^ k)) (2 ^ k) =
      rw (low, power-half k) refl in
    omega (
      arith,
      pow-suc 2 k,
      bit_and-halves (bit_and f m) p,
      high,
      clear-test w k (f / 2) (omega arith),
    )
