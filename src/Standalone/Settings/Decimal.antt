-- ===== src/Standalone/Settings/Decimal.antt =====
-- The numbers of a settings file: `operator<<` of integers, `std::atol` and `std::atoi` in the C
-- locale, for numbers that a long can hold, and the casts to 32 bits.
use wrac_plugin_template.Prelude.{
  ℕ, zero, suc, ◌+◌, ◌*◌, ◌-◌, ◌/◌, ◌%◌, ◌^◌, ◌<◌, Bool, true, false, ◌&&◌, ◌||◌, ◌==◌, ltb, leb,
  if◌then◌else◌, [], ◌∷◌, ◌++◌, append-nil, append_assoc, ◌≡◌, sym, ap, ◌∙◌, inl, inr, arith,
  Bool-cases,
}
use wrac_plugin_template.Prelude.Int.{ℤ, pos, negsuc, to_u32}
use wrac_plugin_template.Prelude.Text.{Text}

-- The digits, with as much fuel as the number and one more.
unfoldable pub digits : ℕ → ℕ → Text
digits zero n = []
digits (suc fuel) n =
    let front = digits fuel (n / 10) in (if ltb n 10 then [] else front) ++ (0x30 + n % 10) ∷ []

abbrev pub print_nat : ℕ → Text
print_nat n = digits (suc n) n

abbrev pub print_int : ℤ → Text
print_int (pos n) = print_nat n
print_int (negsuc n) = 0x2D ∷ print_nat (suc n)

abbrev pub is_digit : ℕ → Bool
is_digit c = leb 0x30 c && leb c 0x39

unfoldable pub read_digits : ℕ → Text → ℕ
read_digits acc [] = acc
read_digits acc (c ∷ s) =
    let rest = read_digits (acc * 10 + (c - 0x30)) s in if is_digit c then rest else acc

abbrev pub is_c_space : ℕ → Bool
is_c_space c = c == 0x20 || (leb 0x09 c && leb c 0x0D)

unfoldable pub skip_spaces : Text → Text
skip_spaces [] = []
skip_spaces (c ∷ s) = let rest = skip_spaces s in if is_c_space c then rest else c ∷ s

abbrev pub minus : ℕ → ℤ
minus zero = pos 0
minus (suc n) = negsuc n

abbrev pub read_signed : Text → ℤ
read_signed [] = pos 0
read_signed (c ∷ s) =
    if c == 0x2D
    then minus (read_digits 0 s)
    else if c == 0x2B
    then pos (read_digits 0 s)
    else pos (read_digits 0 (c ∷ s))

abbrev pub atol : Text → ℤ
atol s = read_signed (skip_spaces s)

abbrev pub i32 : ℤ → ℤ
i32 z = let n = to_u32 z in if ltb n (2 ^ 31) then pos n else negsuc (2 ^ 32 - 1 - n)

abbrev pub is_int32 : ℤ → Bool
is_int32 (pos n) = ltb n (2 ^ 31)
is_int32 (negsuc n) = ltb n (2 ^ 31)

read_digits-digit :
    (acc d : ℕ) (t : Text)
    → d < 10
    → read_digits acc ((0x30 + d) ∷ t) ≡ read_digits (acc * 10 + d) t
unfolding read_digits
read_digits-digit acc d t h =
    let e : is_digit (0x30 + d) ≡ true = ground (arith, h) in
    let v : acc * 10 + ((0x30 + d) - 0x30) ≡ acc * 10 + d = omega arith in
    ap (λ b. if b then read_digits (acc * 10 + ((0x30 + d) - 0x30)) t else acc) e
    ∙ ap (λ k. read_digits k t) v

read_digits-digits :
    (fuel n : ℕ) (t : Text) → n < fuel → read_digits 0 (digits fuel n ++ t) ≡ read_digits n t
unfolding digits
read_digits-digits zero n t h = absurd (omega (arith, h))
read_digits-digits (suc fuel) n t h =
    let d = (0x30 + n % 10) ∷ [] in
    let small : n % 10 < 10 = omega arith in
    let whole : n / 10 * 10 + n % 10 ≡ n = omega arith in
    elim (Bool-cases (ltb n 10)) [
      | inl e ↦
          ap (λ b. read_digits 0 (((if b then [] else digits fuel (n / 10)) ++ d) ++ t)) e
          ∙ read_digits-digit 0 (n % 10) t small
          ∙ ap (λ k. read_digits k t) (ground (arith, e))
      | inr e ↦
          let less : n / 10 < fuel = ground (arith, e, h) in
          ap (λ b. read_digits 0 (((if b then [] else digits fuel (n / 10)) ++ d) ++ t)) e
          ∙ ap (read_digits 0) (append_assoc (digits fuel (n / 10)) d t)
          ∙ read_digits-digits fuel (n / 10) (d ++ t) less
          ∙ read_digits-digit (n / 10) (n % 10) t small
          ∙ ap (λ k. read_digits k t) whole
    ]

pub data IsNumeral (s : Text) : Type 0 where
  numeral : (d : ℕ) (t : Text) → d < 10 → s ≡ (0x30 + d) ∷ t → IsNumeral s

digits-IsNumeral : (fuel n : ℕ) → n < fuel → IsNumeral (digits fuel n)
unfolding digits
digits-IsNumeral zero n h = absurd (omega (arith, h))
digits-IsNumeral (suc fuel) n h =
    let last = (0x30 + n % 10) ∷ [] in
    elim (Bool-cases (ltb n 10)) [
      | inl e ↦
          numeral (n % 10) [] (omega arith)
            (ap (λ b. (if b then [] else digits fuel (n / 10)) ++ last) e)
      | inr e ↦
          let less : n / 10 < fuel = ground (arith, e, h) in
          elim (digits-IsNumeral fuel (n / 10) less) [
            | numeral d t small q ↦ numeral d (t ++ last) small (
                ap (λ b. (if b then [] else digits fuel (n / 10)) ++ last) e
                ∙ ap (λ (x : Text). x ++ last) q)
          ]
    ]

pub print_nat-IsNumeral : (n : ℕ) → IsNumeral (print_nat n)
print_nat-IsNumeral n = digits-IsNumeral (suc n) n (omega arith)

read_digits-print_nat : (n : ℕ) → read_digits 0 (print_nat n) ≡ n
unfolding read_digits
read_digits-print_nat n =
    ap (read_digits 0) (sym (append-nil (print_nat n)))
    ∙ read_digits-digits (suc n) n [] (omega arith)

atol-digit :
    (d : ℕ) (t : Text) → d < 10 → atol ((0x30 + d) ∷ t) ≡ pos (read_digits 0 ((0x30 + d) ∷ t))
unfolding skip_spaces
atol-digit d t h =
    let space : is_c_space (0x30 + d) ≡ false = ground (arith, h) in
    let minus_sign : ((0x30 + d) == 0x2D) ≡ false = ground (arith, h) in
    let plus_sign : ((0x30 + d) == 0x2B) ≡ false = ground (arith, h) in
    ap (λ b. read_signed (if b then skip_spaces t else (0x30 + d) ∷ t)) space
    ∙ ap
        (λ b.
          if b
          then minus (read_digits 0 t)
          else if (0x30 + d) == 0x2B
          then pos (read_digits 0 t)
          else pos (read_digits 0 ((0x30 + d) ∷ t)))
        minus_sign
    ∙ ap (λ b. if b then pos (read_digits 0 t) else pos (read_digits 0 ((0x30 + d) ∷ t))) plus_sign

pub atol-print_nat : (n : ℕ) → atol (print_nat n) ≡ pos n
atol-print_nat n = elim (print_nat-IsNumeral n) [
  | numeral d t small q ↦
      ap atol q
      ∙ atol-digit d t small
      ∙ ap (λ s. pos (read_digits 0 s)) (sym q)
      ∙ ap pos (read_digits-print_nat n)
]

pub atol-print_int : (z : ℤ) → atol (print_int z) ≡ z
unfolding skip_spaces
atol-print_int (pos n) = atol-print_nat n
atol-print_int (negsuc n) = ap minus (read_digits-print_nat (suc n))

pub i32-is_int32 : (z : ℤ) → is_int32 z ≡ true → i32 z ≡ z
i32-is_int32 (pos n) h =
    let e : to_u32 (pos n) ≡ n = ground (arith, h) in
    ap (λ k. if ltb k (2 ^ 31) then pos k else negsuc (2 ^ 32 - 1 - k)) e
    ∙ ap (λ b. if b then pos n else negsuc (2 ^ 32 - 1 - n)) h
i32-is_int32 (negsuc n) h =
    let k = 2 ^ 32 - 1 - n in
    let e : to_u32 (negsuc n) ≡ k = ground (arith, h) in
    let big : ltb k (2 ^ 31) ≡ false = ground (arith, h) in
    let back : 2 ^ 32 - 1 - k ≡ n = ground (arith, h) in
    ap (λ j. if ltb j (2 ^ 31) then pos j else negsuc (2 ^ 32 - 1 - j)) e
    ∙ ap (λ b. if b then pos k else negsuc (2 ^ 32 - 1 - k)) big
    ∙ ap negsuc back
