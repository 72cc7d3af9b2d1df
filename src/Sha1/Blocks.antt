-- ===== src/Sha1/Blocks.antt =====
-- The digest of what the state has seen, if given bytes follow.
use wrac_plugin_template.Prelude.{
  ◌≤◌, ◌<◌, ◌≡◌, ap, ap₂, ◌∙◌, sym, refl, arith, ◌+◌, ◌/◌, zero, suc, ℕ, List, [], ◌∷◌, ◌++◌,
  replicate, length, take, set, take-set, drop-append, take-append, take-all, length-append,
  length-set, append-nil, append_assoc,
}
use wrac_plugin_template.Sha1.{Digest, Sha1, compress, process_message_block, put, put_zeros, store}
use wrac_plugin_template.Sha1.Standard.{hash_blocks}

abbrev pub hash_from : Digest → List ℕ → Digest
hash_from h m = hash_blocks (length m / 64) m h

-- The bytes of the block that are not hashed yet.
abbrev pub pending : Sha1 → List ℕ
pending s = take s.message_block_index s.message_block

-- The digest if `rest` follows.
abbrev pub total : Sha1 → List ℕ → Digest
total s rest = hash_from s.h (pending s ++ rest)

pub put-total :
    (x : ℕ) (s : Sha1) (rest : List ℕ)
    → s.message_block_index < length s.message_block
    → total (put x s) rest ≡ total s (x ∷ rest)
put-total x s rest h = ap (hash_from s.h) (
    ap (λ t. t ++ rest) (take-set s.message_block s.message_block_index x h)
    ∙ append_assoc (pending s) (x ∷ []) rest)

pub hash_from-append :
    (block rest : List ℕ) (h : Digest)
    → length block ≡ 64
    → hash_from h (block ++ rest) ≡ hash_from (compress block h) rest
hash_from-append block rest h l =
    let count : length (block ++ rest) / 64 ≡ suc (length rest / 64) =
      omega (arith, length-append block rest) in
    rw count (
      ap₂ (hash_blocks (length rest / 64)) (drop-append 64 block rest l)
        (ap (λ b. compress b h) (take-append 64 block rest l)))

pub process-total :
    (s : Sha1) (rest : List ℕ)
    → length s.message_block ≡ 64
    → s.message_block_index ≡ 64
    → total (process_message_block s) rest ≡ total s rest
unfolding process_message_block
process-total s rest l i =
    sym (hash_from-append s.message_block rest s.h l)
    ∙ ap (λ b. hash_from s.h (b ++ rest))
        (sym (ap (λ n. take n s.message_block) i ∙ take-all 64 s.message_block (omega arith)))

pub put_zeros-total :
    (n : ℕ) (s : Sha1) (rest : List ℕ)
    → s.message_block_index + n ≤ length s.message_block
    → total (put_zeros n s) rest ≡ total s (replicate n 0 ++ rest)
unfolding put_zeros
put_zeros-total zero s rest h = refl
put_zeros-total (suc n) s rest h =
    put_zeros-total n (put 0 s) rest
      (omega (arith, length-set s.message_block s.message_block_index 0))
    ∙ put-total 0 s (replicate n 0 ++ rest) (omega arith)

pub put_zeros_shape :
    (n : ℕ) (s : Sha1)
    → (length (put_zeros n s).message_block ≡ length s.message_block)
      × ((put_zeros n s).message_block_index ≡ s.message_block_index + n)
unfolding put_zeros
put_zeros_shape zero s = (refl, omega arith)
put_zeros_shape (suc n) s =
    let (l, i) = put_zeros_shape n (put 0 s) in
    (l ∙ length-set s.message_block s.message_block_index 0, omega (arith, i))

-- The bytes that are stored at the end of a block.
pub store-at :
    (block : List ℕ) (at : ℕ) (bs : List ℕ)
    → at + length bs ≡ length block
    → store block at bs ≡ take at block ++ bs
store-at block at [] h = sym (append-nil (take at block) ∙ take-all at block (omega arith))
store-at block at (x ∷ xs) h =
    store-at (set block at x) (at + 1) xs (omega (arith, length-set block at x))
    ∙ ap (λ t. t ++ xs) (take-set block at x (omega arith))
    ∙ append_assoc (take at block) (x ∷ []) xs
