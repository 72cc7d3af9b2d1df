-- ===== src/Sha1/Names.antt =====
-- `swapOrder32`, `swapOrder16` and `create_sha1_guid_from_name`: an identifier made of a name. The
-- constant `isBigEndian` is false, so an object is copied with the lowest byte of a number first.
pub mod Version5
use wrac_plugin_template.Prelude.{
  ◌+◌, ◌*◌, ◌%◌, ◌/◌, ◌^◌, ℕ, bit_or, bit_and, List, [], ◌∷◌, ◌++◌, get_or, take, drop, u32, ◌<<<◌,
  ◌>>>◌,
}
use wrac_plugin_template.Sha1.{fresh, input, hash}

pub record UuidObject : Type 0 where
  pub time_low : ℕ
  pub time_mid : ℕ
  pub time_hi_and_version : ℕ
  pub clock_seq_hi_and_reserved : ℕ
  pub clock_seq_low : ℕ
  pub node : List ℕ

pub swap_order32 : ℕ → ℕ
swap_order32 n =
    bit_or
      (bit_or (bit_or (bit_and (n >>> 24) 0x000000FF) (bit_and (n >>> 8) 0x0000FF00))
        (bit_and (u32 (n <<< 8)) 0x00FF0000))
      (bit_and (u32 (n <<< 24)) 0xFF000000)

pub swap_order16 : ℕ → ℕ
swap_order16 n = bit_or (bit_and (n >>> 8) 0x00FF) (bit_and (n <<< 8) 0xFF00)

abbrev pub swapped : UuidObject → UuidObject
swapped u = record u {
  time_low = swap_order32 u.time_low;
  time_mid = swap_order16 u.time_mid;
  time_hi_and_version = swap_order16 u.time_hi_and_version;
}

-- The sixteen bytes of an object, and the object that is copied of such bytes.
abbrev pub memory_of : UuidObject → List ℕ
memory_of u =
    u.time_low % 256
    ∷ u.time_low / 256 % 256
    ∷ u.time_low / 65536 % 256
    ∷ u.time_low / 16777216 % 256
    ∷ u.time_mid % 256
    ∷ u.time_mid / 256 % 256
    ∷ u.time_hi_and_version % 256
    ∷ u.time_hi_and_version / 256 % 256
    ∷ u.clock_seq_hi_and_reserved
    ∷ u.clock_seq_low
    ∷ u.node

abbrev pub of_memory : List ℕ → UuidObject
of_memory b = record {
  time_low = get_or b 0 0 + get_or b 1 0 * 256 + get_or b 2 0 * 65536 + get_or b 3 0 * 16777216;
  time_mid = get_or b 4 0 + get_or b 5 0 * 256;
  time_hi_and_version = get_or b 6 0 + get_or b 7 0 * 256;
  clock_seq_hi_and_reserved = get_or b 8 0;
  clock_seq_low = get_or b 9 0;
  node = take 6 (drop 10 b);
}

abbrev pub name_space_dns : UuidObject
name_space_dns = record {
  time_low = 0x6ba7b810;
  time_mid = 0x9dad;
  time_hi_and_version = 0x11d1;
  clock_seq_hi_and_reserved = 0x80;
  clock_seq_low = 0xb4;
  node = 0x00 ∷ 0xc0 ∷ 0x4f ∷ 0xd4 ∷ 0x30 ∷ 0xc8 ∷ [];
}

-- The version and the variant.
abbrev pub marked : UuidObject → UuidObject
marked u = record u {
  time_hi_and_version = bit_or (bit_and u.time_hi_and_version 0x0FFF) (5 <<< 12);
  clock_seq_hi_and_reserved = bit_or (bit_and u.clock_seq_hi_and_reserved 0x3F) 0x80;
}

pub create_sha1_guid_from_name : List ℕ → UuidObject
create_sha1_guid_from_name name =
    let digest = (hash (input name (input (memory_of (swapped name_space_dns)) fresh))).0 in
    marked (swapped (of_memory digest))
