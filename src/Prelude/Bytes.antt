-- ===== src/Prelude/Bytes.antt =====
-- The bytes of a 32-bit word, by masks that do not stand at the lowest bit.
use Prim.Native.Nat.{ℕ, zero, suc, ◌+◌, ◌*◌, ◌/◌, ◌%◌, ◌≤◌, ◌<◌, bit_and, bit_or}
use mathlib.Core.Path.{◌≡◌, refl, ap₂, ◌∙◌}
use native.Mathlib.Omega.{arith}
use wrac_plugin_template.Prelude.Bits.{bit_or-halves, bit_and-halves, bit_and-mask, bit_or-add}

bit_or_comm_below : (n a b : ℕ) → a ≤ n → b ≤ n → bit_or a b ≡ bit_or b a
bit_or_comm_below zero a b p q =
    let e : a ≡ 0 = omega arith in let f : b ≡ 0 = omega arith in rw (e, f) refl
bit_or_comm_below (suc n) a b p q = omega (
  arith,
  bit_or-halves a b,
  bit_or-halves b a,
  bit_or_comm_below n (a / 2) (b / 2) (omega arith) (omega arith),
)

pub bit_or_comm : (a b : ℕ) → bit_or a b ≡ bit_or b a
bit_or_comm a b = bit_or_comm_below (a + b) a b (omega arith) (omega arith)

-- A mask moved up by four bits, and by eight.
bit_and-nibble : (a m : ℕ) → bit_and a (m * 16) ≡ bit_and (a / 16) m * 16
bit_and-nibble a m = omega (
  arith,
  bit_and-halves a (m * 16),
  bit_and-halves (a / 2) (m * 16 / 2),
  bit_and-halves (a / 2 / 2) (m * 16 / 2 / 2),
  bit_and-halves (a / 2 / 2 / 2) (m * 16 / 2 / 2 / 2),
  same,
)
  where
    same : bit_and (a / 2 / 2 / 2 / 2) (m * 16 / 2 / 2 / 2 / 2) ≡ bit_and (a / 16) m
    same = ap₂ bit_and (omega arith) (omega arith)

bit_and-byte : (a m : ℕ) → bit_and a (m * 256) ≡ bit_and (a / 256) m * 256
bit_and-byte a m =
    let up : m * 256 ≡ m * 16 * 16 = omega arith in
    let down : a / 16 / 16 ≡ a / 256 = omega arith in
    rw (up, bit_and-nibble a (m * 16), bit_and-nibble (a / 16) m, down) (omega arith)

pub byte1 : (a : ℕ) → bit_and a 0xFF00 ≡ a / 256 % 256 * 256
byte1 a = omega (arith, bit_and-byte a 0xFF, bit_and-mask 8 (a / 256))

pub byte2 : (a : ℕ) → bit_and a 0xFF0000 ≡ a / 65536 % 256 * 65536
byte2 a = omega (arith, bit_and-byte a 0xFF00, byte1 (a / 256))

pub byte3 : (a : ℕ) → bit_and a 0xFF000000 ≡ a / 16777216 % 256 * 16777216
byte3 a = omega (arith, bit_and-byte a 0xFF0000, byte2 (a / 256))

-- Four bytes that are joined from the lowest on.
pub join4 :
    (a b c d : ℕ)
    → a < 256
    → b < 256
    → c < 256
    → bit_or (bit_or (bit_or a (b * 256)) (c * 65536)) (d * 16777216)
      ≡ a + b * 256 + c * 65536 + d * 16777216
join4 a b c d ha hb hc =
    let two : bit_or a (b * 256) ≡ b * 256 + a =
      bit_or_comm a (b * 256) ∙ bit_or-add 8 (b * 256) a (omega arith) (omega arith) in
    let three : bit_or (b * 256 + a) (c * 65536) ≡ c * 65536 + (b * 256 + a) =
      bit_or_comm (b * 256 + a) (c * 65536)
      ∙ bit_or-add 16 (c * 65536) (b * 256 + a) (omega arith) (omega arith) in
    let four : bit_or (c * 65536 + (b * 256 + a)) (d * 16777216)
        ≡ d * 16777216 + (c * 65536 + (b * 256 + a)) =
      bit_or_comm (c * 65536 + (b * 256 + a)) (d * 16777216)
      ∙ bit_or-add 24 (d * 16777216) (c * 65536 + (b * 256 + a)) (omega arith) (omega arith) in
    rw (two, three, four) (omega arith)
