-- ===== src/Sha1/Names/Version5.antt =====
-- The identifier is the one of version 5 in the name space of domain names.
use wrac_plugin_template.Prelude.{
  ◌+◌, ◌*◌, ◌%◌, ◌/◌, ◌^◌, ◌<◌, ℕ, bit_or, bit_and, List, [], ◌∷◌, ◌++◌, All, get_or, take, drop,
  length, ◌≡◌, refl, ap, ◌∙◌, arith,
}
use wrac_plugin_template.Prelude.Bits.{bit_and-mask, bit_or-add}
use wrac_plugin_template.Prelude.Bytes.{bit_or_comm, byte1, byte2, byte3, join4}
use wrac_plugin_template.Sha1.{digest_bytes, Digest, initial, fresh, input, hash}
use wrac_plugin_template.Sha1.Standard.{standard_sha1, hash_blocks, padded}
use wrac_plugin_template.Sha1.Padding.{hash-two}
use wrac_plugin_template.Sha1.Names.{
  UuidObject, swap_order32, swap_order16, swapped, memory_of, of_memory, name_space_dns, marked,
  create_sha1_guid_from_name,
}

swap32 :
    (a b c d : ℕ)
    → a < 256
    → b < 256
    → c < 256
    → d < 256
    → swap_order32 (a + b * 256 + c * 65536 + d * 16777216) ≡ d + c * 256 + b * 65536 + a * 16777216
unfolding swap_order32
swap32 a b c d ha hb hc hd =
    let w = a + b * 256 + c * 65536 + d * 16777216 in
    let p0 : bit_and (w / 2 ^ 24) 0xFF ≡ d = omega (arith, bit_and-mask 8 (w / 2 ^ 24)) in
    let p1 : bit_and (w / 2 ^ 8) 0xFF00 ≡ c * 256 = omega (arith, byte1 (w / 2 ^ 8)) in
    let p2 : bit_and (w * 2 ^ 8 % 2 ^ 32) 0xFF0000 ≡ b * 65536 =
      omega (arith, byte2 (w * 2 ^ 8 % 2 ^ 32)) in
    let p3 : bit_and (w * 2 ^ 24 % 2 ^ 32) 0xFF000000 ≡ a * 16777216 =
      omega (arith, byte3 (w * 2 ^ 24 % 2 ^ 32)) in
    rw (p0, p1, p2, p3) (join4 d c b a hd hc hb)

swap16 : (a b : ℕ) → a < 256 → b < 256 → swap_order16 (a + b * 256) ≡ b + a * 256
unfolding swap_order16
swap16 a b ha hb =
    let w = a + b * 256 in
    let p0 : bit_and (w / 2 ^ 8) 0xFF ≡ b = omega (arith, bit_and-mask 8 (w / 2 ^ 8)) in
    let p1 : bit_and (w * 2 ^ 8) 0xFF00 ≡ a * 256 = omega (arith, byte1 (w * 2 ^ 8)) in
    rw (p0, p1)
      (bit_or_comm b (a * 256) ∙ bit_or-add 8 (a * 256) b (omega arith) (omega arith) ∙ omega arith)

-- The name space, as its bytes are written.
abbrev pub dns : List ℕ
dns =
    0x6b ∷ 0xa7 ∷ 0xb8 ∷ 0x10 ∷ 0x9d ∷ 0xad ∷ 0x11 ∷ 0xd1 ∷ 0x80 ∷ 0xb4 ∷ 0x00 ∷ 0xc0 ∷ 0x4f ∷ 0xd4
    ∷ 0x30 ∷ 0xc8 ∷ []

memory-dns : memory_of (swapped name_space_dns) ≡ dns
unfolding swap_order32 swap_order16
memory-dns = refl

-- The fields of an identifier of version 5, most significant byte first: the first sixteen bytes of
-- a hash, with the version in the highest four bits of the third number and the variant in the
-- highest two of the next byte.
abbrev pub version5 : List ℕ → UuidObject
version5 d = record {
  time_low = get_or d 3 0 + get_or d 2 0 * 256 + get_or d 1 0 * 65536 + get_or d 0 0 * 16777216;
  time_mid = get_or d 5 0 + get_or d 4 0 * 256;
  time_hi_and_version = 5 * 4096 + (get_or d 7 0 + get_or d 6 0 * 256) % 4096;
  clock_seq_hi_and_reserved = 128 + get_or d 8 0 % 64;
  clock_seq_low = get_or d 9 0;
  node = take 6 (drop 10 d);
}

version_bits : (t : ℕ) → bit_or (bit_and t 0x0FFF) (5 * 2 ^ 12) ≡ 5 * 4096 + t % 4096
version_bits t =
    let low : bit_and t 0x0FFF ≡ t % 4096 = omega (arith, bit_and-mask 12 t) in
    rw low (
      bit_or_comm (t % 4096) (5 * 2 ^ 12)
      ∙ bit_or-add 12 (5 * 2 ^ 12) (t % 4096) (omega arith) (omega arith))

variant_bits : (t : ℕ) → bit_or (bit_and t 0x3F) 0x80 ≡ 128 + t % 64
variant_bits t =
    let low : bit_and t 0x3F ≡ t % 64 = omega (arith, bit_and-mask 6 t) in
    rw low (bit_or_comm (t % 64) 0x80 ∙ bit_or-add 6 0x80 (t % 64) (omega arith) (omega arith))

byte-lt : (w : ℕ) → bit_and w 0xFF < 256
byte-lt w = omega (arith, bit_and-mask 8 w)

marked-version5 :
    (h : Digest) → marked (swapped (of_memory (digest_bytes h))) ≡ version5 (digest_bytes h)
marked-version5 h =
    rw
      (
        swap32 _ _ _ _ (byte-lt (h.a / 2 ^ 24)) (byte-lt (h.a / 2 ^ 16)) (byte-lt (h.a / 2 ^ 8))
            (byte-lt h.a),
        swap16 _ _ (byte-lt (h.b / 2 ^ 24)) (byte-lt (h.b / 2 ^ 16)),
        swap16 _ _ (byte-lt (h.b / 2 ^ 8)) (byte-lt h.b),
        version_bits (bit_and h.b 0xFF + bit_and (h.b / 2 ^ 8) 0xFF * 256),
        variant_bits (bit_and (h.c / 2 ^ 24) 0xFF),
      )
      refl

-- The identifier of a name of bytes, with fewer than 2 ^ 64 bits together with the name space, is
-- that of version 5: the hash of the standard, of the name space and then the name, with the version
-- and the variant in their places.
pub create_sha1_guid_from_name-version5 :
    (name : List ℕ)
    → All (λ x. x < 256) name
    → 16 + length name < 2 ^ 61
    → create_sha1_guid_from_name name ≡ version5 (standard_sha1 (dns ++ name))
unfolding create_sha1_guid_from_name
create_sha1_guid_from_name-version5 name b h =
    let hashed : (hash (input name (input (memory_of (swapped name_space_dns)) fresh))).0
        ≡ standard_sha1 (dns ++ name) =
      ap (λ m. (hash (input name (input m fresh))).0) memory-dns
      ∙ hash-two dns name (omega arith) b h in
    ap (λ d. marked (swapped (of_memory d))) hashed
    ∙ marked-version5
        (hash_blocks (length (padded (dns ++ name)) / 64) (padded (dns ++ name)) initial)
