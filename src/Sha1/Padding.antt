-- ===== src/Sha1/Padding.antt =====
-- The padding of the last block, and the hash of a whole message.
use wrac_plugin_template.Prelude.{
  append_assoc, ltb→lt, if◌then◌else◌, All, inr, inl, Bool-cases, ltb, ◌≤◌, ◌<◌, ◌≡◌, ap, ap₂, ◌∙◌,
  sym, refl, arith, ◌+◌, ◌-◌, ◌*◌, ◌/◌, ◌%◌, ◌^◌, zero, suc, ℕ, List, [], ◌∷◌, ◌++◌, replicate,
  length, take, length-append, length-set, length-take, append-nil, bit_and, true,
}
use wrac_plugin_template.Prelude.Bits.{bit_and-mask}
use wrac_plugin_template.Sha1.{
  Sha1, initial, fresh, compress, digest_bytes, process_message_block, put, put_zeros, fill,
  put_marker, store, input_loop, input, bytes_of, pad_message, hash, sha1,
}
use wrac_plugin_template.Sha1.Standard.{length_bytes, standard_sha1}
use wrac_plugin_template.Sha1.Blocks.{
  hash_from, pending, total, put-total, hash_from-append, process-total, put_zeros-total,
  put_zeros_shape, store-at,
}
use wrac_plugin_template.Sha1.Input.{input-loop, IsAfter, input_loop-IsAfter}

-- The last block: what is pending, up to byte 56, and eight more bytes.
last_block :
    (s : Sha1) (bs : List ℕ)
    → length s.message_block ≡ 64
    → s.message_block_index ≡ 56
    → length bs ≡ 8
    → (process_message_block (record s { message_block = store s.message_block 56 bs })).h
      ≡ total s bs
unfolding process_message_block
last_block s bs l i n =
    let stored : store s.message_block 56 bs ≡ pending s ++ bs =
      store-at s.message_block 56 bs (omega arith)
      ∙ ap (λ t. take t s.message_block ++ bs) (sym i) in
    let size : length (pending s ++ bs) ≡ 64 =
      length-append (pending s) bs
      ∙ omega (arith, length-take s.message_block_index s.message_block) in
    ap (λ b. compress b s.h) stored
    ∙ sym (
        ap (hash_from s.h) (sym (append-nil (pending s ++ bs)))
        ∙ hash_from-append (pending s ++ bs) [] s.h size)

length_bytes-bits :
    (low high n : ℕ)
    → low + 2 ^ 32 * high ≡ 8 * n
    → low < 2 ^ 32
    → bytes_of high ++ bytes_of low ≡ length_bytes (8 * n)
length_bytes-bits low high n e l = rw (sym e) (
    cons (omega (arith, byte (high / 2 ^ 24))) (
      cons (omega (arith, byte (high / 2 ^ 16))) (
        cons (omega (arith, byte (high / 2 ^ 8))) (
          cons (omega (arith, byte high)) (
            cons (omega (arith, byte (low / 2 ^ 24))) (
              cons (omega (arith, byte (low / 2 ^ 16))) (
                cons (omega (arith, byte (low / 2 ^ 8)))
                  (cons (omega (arith, byte low)) refl))))))))
  where
    byte : (w : ℕ) → bit_and w 0xFF ≡ w % 256
    byte w = bit_and-mask 8 w

    cons : {a b : ℕ} {xs ys : List ℕ} → a ≡ b → xs ≡ ys → a ∷ xs ≡ b ∷ ys
    cons p q = ap₂ (◌∷◌) p q

-- The two ways to byte 56, with what the standard puts there.
zeros : ℕ → List ℕ
zeros n = replicate ((119 - n % 64) % 64) 0

-- The state before the length is stored.
filled : Sha1 → Sha1
filled s =
    if ltb 55 s.message_block_index
    then fill 56 (process_message_block (fill 64 (put_marker s)))
    else fill 56 (put_marker s)

record IsFilled (n : ℕ) (s t : Sha1) : Type 0 where
  length_block : length t.message_block ≡ 64
  index : t.message_block_index ≡ 56
  same : (rest : List ℕ) → total t rest ≡ total s (0x80 ∷ (zeros n ++ rest))

IsFilled-short :
    (n : ℕ) (s : Sha1)
    → IsAfter n s
    → s.message_block_index ≤ 55
    → IsFilled n s (put_zeros (55 - s.message_block_index) (put 0x80 s))
unfolding zeros
IsFilled-short n s a h =
    let count : (119 - n % 64) % 64 ≡ 55 - s.message_block_index = omega (arith, a.index) in
    let (l, i) = put_zeros_shape (55 - s.message_block_index) (put 0x80 s) in
    let room = length-set s.message_block s.message_block_index 0x80 in
    record {
      length_block = l ∙ room ∙ a.length_block;
      index = omega (arith, i);
      same = λ rest.
          put_zeros-total (55 - s.message_block_index) (put 0x80 s) rest
            (omega (arith, room, a.length_block))
          ∙ put-total 0x80 s _ (omega (arith, a.length_block))
          ∙ ap (λ k. total s (0x80 ∷ (replicate k 0 ++ rest))) (sym count);
    }

replicate-add :
    (a b : ℕ) (rest : List ℕ)
    → replicate a 0 ++ (replicate b 0 ++ rest) ≡ replicate (a + b) 0 ++ rest
replicate-add zero b rest = let e : 0 + b ≡ b = omega arith in rw e refl
replicate-add (suc a) b rest =
    let e : suc a + b ≡ suc (a + b) = omega arith in rw e (ap (◌∷◌ 0) (replicate-add a b rest))

process_shape :
    (s : Sha1)
    → ((process_message_block s).message_block ≡ s.message_block)
      × ((process_message_block s).message_block_index ≡ 0)
unfolding process_message_block
process_shape s = (refl, refl)

IsFilled-long :
    (n : ℕ) (s : Sha1)
    → IsAfter n s
    → 55 < s.message_block_index
    → IsFilled n s
        (put_zeros 56 (process_message_block (put_zeros (63 - s.message_block_index) (put 0x80 s))))
unfolding zeros
IsFilled-long n s a h =
    let most = 63 - s.message_block_index in
    let first = put_zeros most (put 0x80 s) in
    let (l, i) = put_zeros_shape most (put 0x80 s) in
    let (kept, start) = process_shape first in
    let (l', i') = put_zeros_shape 56 (process_message_block first) in
    let room = length-set s.message_block s.message_block_index 0x80 in
    let full : length first.message_block ≡ 64 = l ∙ room ∙ a.length_block in
    let size : length (process_message_block first).message_block ≡ 64 = ap length kept ∙ full in
    let count : most + 56 ≡ (119 - n % 64) % 64 = omega (arith, a.index) in
    record {
      length_block = l' ∙ size;
      index = omega (arith, i', start);
      same = λ rest.
          put_zeros-total 56 (process_message_block first) rest (omega (arith, size, start))
          ∙ process-total first (replicate 56 0 ++ rest) full (omega (arith, i, a.index))
          ∙ put_zeros-total most (put 0x80 s) (replicate 56 0 ++ rest)
              (omega (arith, room, a.length_block, a.index))
          ∙ put-total 0x80 s _ (omega (arith, a.length_block, a.index))
          ∙ ap (λ r. total s (0x80 ∷ r))
              (replicate-add most 56 rest ∙ ap (λ k. replicate k 0 ++ rest) count);
    }

filled-IsFilled : (n : ℕ) (s : Sha1) → IsAfter n s → IsFilled n s (filled s)
unfolding filled process_message_block
filled-IsFilled n s a =
    let marked : ltb s.message_block_index 64 ≡ true = ground (arith, a.index) in
    elim (Bool-cases (ltb 55 s.message_block_index)) [
      | inl c ↦
          let e : 64 - (s.message_block_index + 1) ≡ 63 - s.message_block_index = omega arith in
          rw (c, marked, e) (IsFilled-long n s a (ltb→lt _ _ c))
      | inr c ↦
          let e : 56 - (s.message_block_index + 1) ≡ 55 - s.message_block_index = omega arith in
          rw (c, marked, e) (IsFilled-short n s a (ground arith))
    ]

-- The padding ends with the digest of the padded message.
pad_message-total :
    (n : ℕ) (s : Sha1)
    → IsAfter n s
    → (pad_message s).h ≡ total s (0x80 ∷ (zeros n ++ length_bytes (8 * n)))
unfolding pad_message filled
pad_message-total n s a =
    let f : IsFilled n s (filled s) = filled-IsFilled n s a in
    let size : length (bytes_of s.length_high ++ bytes_of s.length_low) ≡ 8 = refl in
    last_block (filled s) (bytes_of s.length_high ++ bytes_of s.length_low) f.length_block f.index
      size
    ∙ f.same (bytes_of s.length_high ++ bytes_of s.length_low)
    ∙ ap (λ b. total s (0x80 ∷ (zeros n ++ b)))
        (length_bytes-bits s.length_low s.length_high n a.bits a.low)

fresh-IsAfter : IsAfter 0 fresh
unfolding fresh
fresh-IsAfter = record {
  length_block = refl;
  index = refl;
  bits = refl;
  low = omega arith;
  computed = refl;
  corrupted = refl;
}

fresh-total : (rest : List ℕ) → total fresh rest ≡ hash_from initial rest
unfolding fresh
fresh-total rest = refl

input-nil : (s : Sha1) → input [] s ≡ s
unfolding input
input-nil s = refl

-- Two inputs in a row hash what they hold together.
pub hash-two :
    (xs ys : List ℕ)
    → All (λ x. x < 256) xs
    → All (λ x. x < 256) ys
    → length xs + length ys < 2 ^ 61
    → (hash (input ys (input xs fresh))).0 ≡ standard_sha1 (xs ++ ys)
unfolding hash zeros
hash-two xs ys bx by h =
    let n = length xs + length ys in
    let pad = 0x80 ∷ (zeros n ++ length_bytes (8 * n)) in
    let (after, same) = input_loop-IsAfter xs 0 fresh (ys ++ pad) bx (omega arith) fresh-IsAfter in
    let z : 0 + length xs ≡ length xs = omega arith in
    let after' : IsAfter (length xs) (input_loop xs fresh) = rw z at after in
    let (then_after, then_same) =
      input_loop-IsAfter ys (length xs) (input_loop xs fresh) pad by h after' in
    let both : input ys (input xs fresh) ≡ input_loop ys (input_loop xs fresh) =
      ap (input ys) (input-loop 0 xs fresh fresh-IsAfter)
      ∙ input-loop (length xs) ys (input_loop xs fresh) after' in
    let count : length (xs ++ ys) ≡ n = length-append xs ys in
    ap digest_bytes (
      ap (λ s. (pad_message s).h) both
      ∙ pad_message-total n (input_loop ys (input_loop xs fresh)) then_after
      ∙ then_same
      ∙ same
      ∙ fresh-total (xs ++ (ys ++ pad))
      ∙ ap (hash_from initial) (sym (append_assoc xs ys pad))
      ∙ ap (λ k. hash_from initial ((xs ++ ys) ++ (0x80 ∷ (zeros k ++ length_bytes (8 * k)))))
          (sym count))

-- The hash of a message of bytes with fewer than 2 ^ 64 bits is that of the standard, which pads the
-- message and hashes it block by block.
pub sha1-standard_sha1 :
    (m : List ℕ) → All (λ x. x < 256) m → length m < 2 ^ 61 → sha1 m ≡ standard_sha1 m
unfolding sha1
sha1-standard_sha1 m b h =
    ap (λ s. (hash (input m s)).0) (sym (input-nil fresh)) ∙ hash-two [] m _ b (omega arith)
