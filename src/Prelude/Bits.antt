-- ===== src/Prelude/Bits.antt =====
-- `&` with a mask of low bits and `|` of disjoint fields as arithmetic, at every width.
use Prim.Native.Nat.{ℕ, zero, suc, ◌+◌, ◌-◌, ◌*◌, ◌/◌, ◌%◌, ◌^◌, ◌≤◌, ◌<◌, min, max}
use Prim.Native.Nat.{◌∣◌, bit_and, bit_or, digits, bit_and-bitwise, bit_or-bitwise}
use mathlib.Core.Path.{◌≡◌, refl, sym, ap, ◌∙◌}
use native.Mathlib.Nat.{pow-suc, one-le-pow, le_refl}
use native.Mathlib.Nat.{div-add-mod, mod-lt, mod-eq_of_lt, mul-add-mod_self_right}
use native.Mathlib.Nat.{dvd_refl, dvd-mul_right_of_dvd, mod-mod_of_dvd, le-suc_iff}
use mathlib.Core.Logic.{inl, inr}
use native.Mathlib.Omega.{arith}

-- The digit recursion gives one result for every count of digits that covers its first number.
module _ (rest : ℕ → ℕ) (op : ℕ → ℕ → ℕ) where
  no_digits : (k b : ℕ) → digits rest op k zero b ≡ rest b
  no_digits zero b = refl
  no_digits (suc k) b = refl

  enough_digits : (k l a b : ℕ) → a ≤ k → a ≤ l → digits rest op k a b ≡ digits rest op l a b
  enough_digits k l zero b p q = no_digits k b ∙ sym (no_digits l b)
  enough_digits zero l (suc a) b p q = absurd (omega arith)
  enough_digits (suc k) zero (suc a) b p q = absurd (omega arith)
  enough_digits (suc k) (suc l) (suc a) b p q =
      ap (λ (t : ℕ). t * 2 + op (suc a % 2) (b % 2))
        (enough_digits k l (suc a / 2) (b / 2) (omega arith) (omega arith))

  halve_digits :
      (a b : ℕ)
      → digits rest op (suc a) (suc a) b
        ≡ digits rest op (suc a / 2) (suc a / 2) (b / 2) * 2 + op (suc a % 2) (b % 2)
  halve_digits a b =
      ap (λ (t : ℕ). t * 2 + op (suc a % 2) (b % 2))
        (enough_digits a (suc a / 2) (suc a / 2) (b / 2) (omega arith) (le_refl _))

pub bit_or-halves : (a b : ℕ) → bit_or a b ≡ bit_or (a / 2) (b / 2) * 2 + max (a % 2) (b % 2)
bit_or-halves zero b = simp bit_or-bitwise (omega arith)
bit_or-halves (suc a) b = simp bit_or-bitwise (halve_digits (λ d. d) max a b)

pub bit_and-halves : (a b : ℕ) → bit_and a b ≡ bit_and (a / 2) (b / 2) * 2 + min (a % 2) (b % 2)
bit_and-halves zero b = simp bit_and-bitwise (omega arith)
bit_and-halves (suc a) b = simp bit_and-bitwise (halve_digits (λ d. 0) min a b)

pub zero-bit_and : (b : ℕ) → bit_and 0 b ≡ 0
zero-bit_and b = bit_and-bitwise 0 b

-- With a bound for the recursion on halves.
bit_or-zero_below : (n a : ℕ) → a ≤ n → bit_or a 0 ≡ a
bit_or-zero_below n zero h = refl
bit_or-zero_below zero (suc a) h = absurd (omega arith)
bit_or-zero_below (suc n) (suc a) h =
    omega (arith, bit_or-halves (suc a) 0, bit_or-zero_below n (suc a / 2) (omega arith))

pub bit_or-zero : (a : ℕ) → bit_or a 0 ≡ a
bit_or-zero a = bit_or-zero_below a a (le_refl a)

bit_and-zero_below : (n a : ℕ) → a ≤ n → bit_and a 0 ≡ 0
bit_and-zero_below n zero h = refl
bit_and-zero_below zero (suc a) h = absurd (omega arith)
bit_and-zero_below (suc n) (suc a) h =
    omega (arith, bit_and-halves (suc a) 0, bit_and-zero_below n (suc a / 2) (omega arith))

pub bit_and-zero : (a : ℕ) → bit_and a 0 ≡ 0
bit_and-zero a = bit_and-zero_below a a (le_refl a)

-- The remainder by an even number, from that of the half.
mod-double : (m a : ℕ) → 0 < m → a % (m * 2) ≡ a / 2 % m * 2 + a % 2
mod-double m a h =
    ap (λ (t : ℕ). t % (m * 2)) split
    ∙ mul-add-mod_self_right (a / 2 / m) (m * 2) (a / 2 % m * 2 + a % 2)
    ∙ mod-eq_of_lt (omega (arith, mod-lt (a / 2) h))
  where
    split : a ≡ a / 2 / m * (m * 2) + (a / 2 % m * 2 + a % 2)
    split = omega (arith, div-add-mod (a / 2) m)

-- A mask of `k` ones keeps the remainder by `2 ^ k`.
pub bit_and-mask : (k a : ℕ) → bit_and a (2 ^ k - 1) ≡ a % 2 ^ k
bit_and-mask zero a = ground (arith, bit_and-zero a)
bit_and-mask (suc k) a = omega (
  arith,
  pow-suc 2 k,
  one-le-pow k 2 (omega arith),
  bit_and-halves a (2 ^ suc k - 1),
  ap (bit_and (a / 2)) halved,
  bit_and-mask k (a / 2),
  ap (λ (t : ℕ). a % t) (pow-suc 2 k),
  mod-double (2 ^ k) a (one-le-pow k 2 (omega arith)),
)
  where
    halved : (2 ^ suc k - 1) / 2 ≡ 2 ^ k - 1
    halved = omega (arith, pow-suc 2 k, one-le-pow k 2 (omega arith))

-- `(q << k) | r` is a sum if `r` fits in `k` bits.
pub bit_or-field : (k q r : ℕ) → r < 2 ^ k → bit_or (q * 2 ^ k) r ≡ q * 2 ^ k + r
bit_or-field zero q r h = ground (arith, bit_or-zero q)
bit_or-field (suc k) q r h = omega (
  arith,
  pow-suc 2 k,
  ap (λ (t : ℕ). q * t) (pow-suc 2 k),
  bit_or-halves (q * 2 ^ suc k) r,
  doubled,
  bit_or-field k q (r / 2) (omega (arith, pow-suc 2 k)),
)
  where
    doubled : bit_or (q * 2 ^ suc k / 2) (r / 2) ≡ bit_or (q * 2 ^ k) (r / 2)
    doubled = ap (λ (t : ℕ). bit_or t (r / 2)) (omega (arith, ap (λ (t : ℕ). q * t) (pow-suc 2 k)))

pow-dvd-pow : (k n : ℕ) → k ≤ n → 2 ^ k ∣ 2 ^ n
pow-dvd-pow k zero h = let e : k ≡ 0 = omega arith in rw e (dvd_refl 1)
pow-dvd-pow k (suc n) h = elim (le-suc_iff.0 h) [
  | inl below ↦ rw (pow-suc 2 n) (dvd-mul_right_of_dvd (2 ^ k) (pow-dvd-pow k n below) 2)
  | inr e ↦ rw e (dvd_refl (2 ^ suc n))
]

-- Cutting to more bits first changes nothing.
pub mod-mod-pow : (k n a : ℕ) → k ≤ n → a % 2 ^ n % 2 ^ k ≡ a % 2 ^ k
mod-mod-pow k n a h = mod-mod_of_dvd (2 ^ k) a (pow-dvd-pow k n h)

-- A field below the lowest bit of what stands above it is added.
pub bit_or-add : (k x r : ℕ) → x % 2 ^ k ≡ 0 → r < 2 ^ k → bit_or x r ≡ x + r
bit_or-add k x r e h =
    ap (λ (t : ℕ). bit_or t r) above
    ∙ bit_or-field k (x / 2 ^ k) r h
    ∙ ap (λ (t : ℕ). t + r) (sym above)
  where
    above : x ≡ x / 2 ^ k * 2 ^ k
    above = omega (arith, div-add-mod x (2 ^ k))

-- `x & 0xF0` is the high nibble of a byte in its place.
pub high_nibble : (x : ℕ) → bit_and x 0xF0 ≡ x / 16 % 16 * 16
high_nibble x = omega (
  arith,
  bit_and-halves x 0xF0,
  bit_and-halves (x / 2) 0x78,
  bit_and-halves (x / 2 / 2) 0x3C,
  bit_and-halves (x / 2 / 2 / 2) 0x1E,
  bit_and-mask 4 (x / 2 / 2 / 2 / 2),
)
