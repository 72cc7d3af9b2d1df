-- ===== src/Sha1.antt =====
-- clap_wrapper_builder/clap-wrapper/src/detail/shared/sha1.cpp: the class `Sha1`, and the identifiers
-- made of a name. A method returns the new state.
pub mod Standard
pub mod Blocks
pub mod Input
pub mod Padding
pub mod Names
mod Tests
use wrac_plugin_template.Prelude.{
  ◌&&◌, ◌||◌, ltb, leb, ◌+◌, ◌-◌, ◌*◌, ◌%◌, ◌^◌, zero, suc, ℕ, Bool, true, false, ◌==◌, bit_or,
  bit_and, bit_xor, List, [], ◌∷◌, ◌++◌, Option, none, some, if◌then◌else◌, get_or, set, length,
  replicate, u32, ◌<<<◌, ◌>>>◌, take, drop,
}

-- `H`: the five words of the digest.
pub record Digest : Type 0 where
  pub a : ℕ
  pub b : ℕ
  pub c : ℕ
  pub d : ℕ
  pub e : ℕ

pub record Sha1 : Type 0 where
  pub h : Digest
  pub length_low : ℕ
  pub length_high : ℕ
  pub message_block : List ℕ
  pub message_block_index : ℕ
  pub computed : Bool
  pub corrupted : Bool

abbrev pub initial : Digest
initial = record { a = 0x67452301; b = 0xEFCDAB89; c = 0x98BADCFE; d = 0x10325476; e = 0xC3D2E1F0 }

-- `reset` leaves the bytes of the block.
pub reset : Sha1 → Sha1
reset s = record s {
  h = initial;
  length_low = 0;
  length_high = 0;
  message_block_index = 0;
  computed = false;
  corrupted = false;
}

pub fresh : Sha1
fresh = record {
  h = initial;
  length_low = 0;
  length_high = 0;
  message_block = replicate 64 0;
  message_block_index = 0;
  computed = false;
  corrupted = false;
}

abbrev pub circular_shift : ℕ → ℕ → ℕ
circular_shift bits word = bit_or (u32 (word <<< bits)) (u32 word >>> (32 - bits))

-- `~w` on 32 bits.
abbrev pub complement : ℕ → ℕ
complement w = bit_xor w 0xFFFFFFFF

abbrev pub word_at : List ℕ → ℕ → ℕ
word_at block t =
    bit_or
      (bit_or (bit_or (get_or block (t * 4) 0 <<< 24) (get_or block (t * 4 + 1) 0 <<< 16))
        (get_or block (t * 4 + 2) 0 <<< 8))
      (get_or block (t * 4 + 3) 0)

-- The first 16 words, from the word `t` on.
abbrev pub first_words : ℕ → ℕ → List ℕ → List ℕ
first_words zero t block = []
first_words (suc n) t block = word_at block t ∷ first_words n (t + 1) block

-- The words from 16 on; `w` holds those before.
pub expand : ℕ → List ℕ → List ℕ
expand zero w = w
expand (suc n) w =
    let t = length w in
    expand n (
      w
      ++ circular_shift 1 (
          bit_xor
            (bit_xor (bit_xor (get_or w (t - 3) 0) (get_or w (t - 8) 0)) (get_or w (t - 14) 0))
            (get_or w (t - 16) 0))
        ∷ [])

-- What the four loops add for a word, and their constants.
abbrev pub mixed : ℕ → Digest → ℕ
mixed t r =
    if ltb t 20
    then bit_or (bit_and r.b r.c) (bit_and (complement r.b) r.d)
    else if ltb t 40
    then bit_xor (bit_xor r.b r.c) r.d
    else if ltb t 60
    then bit_or (bit_or (bit_and r.b r.c) (bit_and r.b r.d)) (bit_and r.c r.d)
    else bit_xor (bit_xor r.b r.c) r.d

abbrev pub constant : ℕ → ℕ
constant t =
    if ltb t 20
    then 0x5A827999
    else if ltb t 40
    then 0x6ED9EBA1
    else if ltb t 60
    then 0x8F1BBCDC
    else 0xCA62C1D6

-- One round of the loops.
pub round : ℕ → ℕ → Digest → Digest
round t w r = record {
  a = u32 (circular_shift 5 r.a + mixed t r + r.e + w + constant t);
  b = r.a;
  c = circular_shift 30 r.b;
  d = r.c;
  e = r.d;
}

pub rounds : ℕ → List ℕ → Digest → Digest
rounds t [] r = r
rounds t (w ∷ ws) r = rounds (t + 1) ws (round t w r)

-- The new digest after a block.
pub compress : List ℕ → Digest → Digest
compress block h =
    let r = rounds 0 (expand 64 (first_words 16 0 block)) h in
    record {
      a = u32 (h.a + r.a);
      b = u32 (h.b + r.b);
      c = u32 (h.c + r.c);
      d = u32 (h.d + r.d);
      e = u32 (h.e + r.e);
    }

pub process_message_block : Sha1 → Sha1
process_message_block s = record s { h = compress s.message_block s.h; message_block_index = 0 }

-- `_messageBlock[_messageBlockIndex++] = x`
abbrev pub put : ℕ → Sha1 → Sha1
put x s = record s {
  message_block = set s.message_block s.message_block_index x;
  message_block_index = s.message_block_index + 1;
}

-- The count of bits, which is corrupted when it overflows.
abbrev pub count_byte : Sha1 → Sha1
count_byte s =
    let low = u32 (s.length_low + 8) in
    let high = u32 (s.length_high + 1) in
    record s {
      length_low = low;
      length_high = if low == 0 then high else s.length_high;
      corrupted = if low == 0 && high == 0 then true else s.corrupted;
    }

abbrev pub input_byte : ℕ → Sha1 → Sha1
input_byte x s =
    let s' = count_byte (put (bit_and x 0xFF) s) in
    if s'.message_block_index == 64 then process_message_block s' else s'

-- The loop of `input`, which ends once the state is corrupted.
pub input_loop : List ℕ → Sha1 → Sha1
input_loop [] s = s
input_loop (x ∷ xs) s = let rest = input_loop xs (input_byte x s) in if s.corrupted then s else rest

pub input : List ℕ → Sha1 → Sha1
input [] s = s
input (x ∷ xs) s =
    if s.computed || s.corrupted
    then record s { corrupted = true }
    else if leb 64 s.message_block_index
    then s
    else input_loop (x ∷ xs) s

-- The loop that fills the block with zeros up to an index.
pub put_zeros : ℕ → Sha1 → Sha1
put_zeros zero s = s
put_zeros (suc n) s = put_zeros n (put 0 s)

abbrev pub fill : ℕ → Sha1 → Sha1
fill limit s = put_zeros (limit - s.message_block_index) s

abbrev pub put_marker : Sha1 → Sha1
put_marker s = if ltb s.message_block_index 64 then put 0x80 s else s

abbrev pub store : List ℕ → ℕ → List ℕ → List ℕ
store block at [] = block
store block at (x ∷ xs) = store (set block at x) (at + 1) xs

abbrev pub bytes_of : ℕ → List ℕ
bytes_of w =
    bit_and (w >>> 24) 0xFF ∷ bit_and (w >>> 16) 0xFF ∷ bit_and (w >>> 8) 0xFF ∷ bit_and w 0xFF ∷ []

pub pad_message : Sha1 → Sha1
pad_message s =
    let padded =
      if ltb 55 s.message_block_index
      then fill 56 (process_message_block (fill 64 (put_marker s)))
      else fill 56 (put_marker s) in
    process_message_block (record padded {
      message_block =
          store padded.message_block 56 (bytes_of s.length_high ++ bytes_of s.length_low);
    })

abbrev pub digest_bytes : Digest → List ℕ
digest_bytes h = bytes_of h.a ++ (bytes_of h.b ++ (bytes_of h.c ++ (bytes_of h.d ++ bytes_of h.e)))

-- The digest, and the state that is left.
pub hash : Sha1 → List ℕ × Sha1
hash s = let padded = pad_message s in (digest_bytes padded.h, reset padded)

pub sha1 : List ℕ → List ℕ
sha1 text = (hash (input text fresh)).0
