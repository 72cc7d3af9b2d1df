-- ===== src/Sha1/Standard.antt =====
-- The message that the standard hashes, and its hash, block by block.
use wrac_plugin_template.Prelude.{
  ◌-◌, ◌*◌, ◌/◌, ◌%◌, ◌^◌, zero, suc, ℕ, List, [], ◌∷◌, ◌++◌, replicate, length, take, drop,
}
use wrac_plugin_template.Sha1.{Digest, initial, compress, digest_bytes}

-- The 64 bits of the length, most significant byte first.
abbrev pub length_bytes : ℕ → List ℕ
length_bytes n =
    n / 2 ^ 56 % 256
    ∷ n / 2 ^ 48 % 256
    ∷ n / 2 ^ 40 % 256
    ∷ n / 2 ^ 32 % 256
    ∷ n / 2 ^ 24 % 256
    ∷ n / 2 ^ 16 % 256
    ∷ n / 2 ^ 8 % 256
    ∷ n % 256
    ∷ []

-- The message, a one bit, the fewest zeros that fill whole blocks with the length, and the length.
abbrev pub padded : List ℕ → List ℕ
padded m = m ++ (0x80 ∷ (replicate ((119 - length m % 64) % 64) 0 ++ length_bytes (8 * length m)))

-- The blocks of 64 bytes in order; what is left over is not hashed.
abbrev pub hash_blocks : ℕ → List ℕ → Digest → Digest
hash_blocks zero m h = h
hash_blocks (suc n) m h = hash_blocks n (drop 64 m) (compress (take 64 m) h)

abbrev pub standard_sha1 : List ℕ → List ℕ
standard_sha1 m = digest_bytes (hash_blocks (length (padded m) / 64) (padded m) initial)
