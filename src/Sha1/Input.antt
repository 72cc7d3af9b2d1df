-- ===== src/Sha1/Input.antt =====
-- The count of the bytes, and `input`.
use wrac_plugin_template.Prelude.{
  leb, ◌||◌, if◌then◌else◌, Bool, ◌==◌, All, inr, inl, Bool-cases, ◌<◌, ◌≡◌, ◌∙◌, refl, arith, ◌+◌,
  ◌*◌, ◌%◌, ◌^◌, suc, ℕ, List, [], ◌∷◌, ◌++◌, length, length-set, bit_and, true, false,
}
use wrac_plugin_template.Prelude.Bits.{bit_and-mask}
use wrac_plugin_template.Sha1.{
  input, Sha1, process_message_block, put, count_byte, input_byte, input_loop,
}
use wrac_plugin_template.Sha1.Blocks.{total, put-total, process-total}

-- What stands after `n` bytes of input.
pub record IsAfter (n : ℕ) (s : Sha1) : Type 0 where
  pub length_block : length s.message_block ≡ 64
  pub index : s.message_block_index ≡ n % 64
  pub bits : s.length_low + 2 ^ 32 * s.length_high ≡ 8 * n
  pub low : s.length_low < 2 ^ 32
  pub computed : s.computed ≡ false
  pub corrupted : s.corrupted ≡ false

input_byte-IsAfter :
    (n x : ℕ) (s : Sha1) → n + 1 < 2 ^ 61 → IsAfter n s → IsAfter (n + 1) (input_byte x s)
unfolding process_message_block
input_byte-IsAfter n x s h a = record {
  length_block =
      ground
        (arith, length-set s.message_block s.message_block_index (bit_and x 0xFF), a.length_block);
  index = ground (arith, a.index);
  bits = ground (arith, a.bits, a.low);
  low = ground (arith, a.low);
  computed = ground (arith, a.computed);
  corrupted = ground (arith, a.corrupted, a.bits, a.low);
}

input_byte-total :
    (n x : ℕ) (s : Sha1) (rest : List ℕ)
    → x < 256
    → IsAfter n s
    → total (input_byte x s) rest ≡ total s (x ∷ rest)
input_byte-total n x s rest h a =
    let byte : bit_and x 0xFF ≡ x = omega (arith, bit_and-mask 8 x) in
    rw byte (elim (Bool-cases (s.message_block_index + 1 == 64)) [
      | inl c ↦ rw c (
          process-total (count_byte (put x s)) rest
            (length-set s.message_block s.message_block_index x ∙ a.length_block) (ground arith)
          ∙ put-total x s rest (omega (arith, a.index, a.length_block)))
      | inr c ↦ rw c (put-total x s rest (omega (arith, a.index, a.length_block)))
    ])

not_taken : {A : Type 0} (b : Bool) (x y : A) → b ≡ false → (if b then x else y) ≡ y
not_taken true x y h = absurd (ground (arith, h))
not_taken false x y h = refl

input_loop-nil : (s : Sha1) → input_loop [] s ≡ s
unfolding input_loop
input_loop-nil s = refl

input_loop-cons :
    (x : ℕ) (xs : List ℕ) (s : Sha1)
    → s.corrupted ≡ false
    → input_loop (x ∷ xs) s ≡ input_loop xs (input_byte x s)
unfolding input_loop
input_loop-cons x xs s h = not_taken s.corrupted s (input_loop xs (input_byte x s)) h

-- The loop over bytes, while the count of bits does not overflow.
pub input_loop-IsAfter :
    (xs : List ℕ) (n : ℕ) (s : Sha1) (rest : List ℕ)
    → All (λ x. x < 256) xs
    → n + length xs < 2 ^ 61
    → IsAfter n s
    → IsAfter (n + length xs) (input_loop xs s)
      × (total (input_loop xs s) rest ≡ total s (xs ++ rest))
input_loop-IsAfter [] n s rest b h a =
    let e : n + 0 ≡ n = omega arith in rw (e, input_loop-nil s) (a, refl)
input_loop-IsAfter (x ∷ xs) n s rest b h a =
    let e : n + suc (length xs) ≡ n + 1 + length xs = omega arith in
    let step = input_byte-IsAfter n x s (omega arith) a in
    let (after, same) =
      input_loop-IsAfter xs (n + 1) (input_byte x s) rest b.1 (omega arith) step in
    rw (e, input_loop-cons x xs s a.corrupted)
      (after, same ∙ input_byte-total n x s (xs ++ rest) b.0 a)

-- `input` in a state that takes bytes is the loop.
pub input-loop : (n : ℕ) (m : List ℕ) (s : Sha1) → IsAfter n s → input m s ≡ input_loop m s
unfolding input input_loop
input-loop n [] s a = refl
input-loop n (x ∷ xs) s a =
    not_taken (s.computed || s.corrupted) _ _ (ground (arith, a.computed, a.corrupted))
    ∙ not_taken (leb 64 s.message_block_index) _ _ (ground (arith, a.index))
