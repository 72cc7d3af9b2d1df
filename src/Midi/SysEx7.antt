-- ===== src/Midi/SysEx7.antt =====
-- `packSysEx7` and the class `SysEx7Reassembler`. A packet is a pair of 32-bit words.
pub mod Words
pub mod RoundTrip
mod Tests
use wrac_plugin_template.Prelude.{
  ℕ, zero, suc, ◌+◌, ◌-◌, ◌*◌, ◌/◌, ◌^◌, min, bit_and, bit_or, ◌==◌, ltb, leb, ◌&&◌, ◌||◌, List, [],
  ◌∷◌, ◌++◌, Bool, true, false, Option, none, some, length, get_or, take, drop, replicate, u8,
  if◌then◌else◌, ◌<<<◌, ◌>>>◌,
}

pub record Packet : Type 0 where
  pub word0 : ℕ
  pub word1 : ℕ

-- The words of a packet in group 0; `b` holds six bytes.
pub packet : ℕ → ℕ → List ℕ → Packet
packet status_nibble chunk b = record {
  word0 =
      bit_or
        (bit_or
          (bit_or (bit_or (bit_or (3 <<< 28) (0 <<< 24)) (status_nibble <<< 20)) (chunk <<< 16))
          (get_or b 0 0 <<< 8))
        (get_or b 1 0);
  word1 =
      bit_or (bit_or (bit_or (get_or b 2 0 <<< 24) (get_or b 3 0 <<< 16)) (get_or b 4 0 <<< 8))
        (get_or b 5 0);
}

-- The payload without its 0xF0 in front and its 0xF7 at the end.
abbrev pub strip_start : List ℕ → List ℕ
strip_start [] = []
strip_start (x ∷ xs) = if x == 0xF0 then xs else x ∷ xs

abbrev pub strip_end : List ℕ → List ℕ
strip_end p =
    let n = length p in if ltb 0 n && get_or p (n - 1) 0 == 0xF7 then take (n - 1) p else p

abbrev pub status_of : ℕ → ℕ → ℕ → ℕ
status_of n offset chunk =
    if leb n 6 then 0 else if offset == 0 then 1 else if leb n (offset + chunk) then 3 else 2

abbrev pub chunk_of : ℕ → ℕ → ℕ
chunk_of n offset = if ltb 6 (n - offset) then 6 else n - offset

-- One round of the loop over the content `p` of `n` bytes.
abbrev pub round : List ℕ → ℕ → Packet
round p offset =
    let n = length p in
    let chunk = chunk_of n offset in
    packet (status_of n offset chunk) chunk (take chunk (drop offset p) ++ replicate (6 - chunk) 0)

-- The do-while loop on fuel; `none` if it runs out. The list holds what `emit` is called with.
pub pack_loop : ℕ → List ℕ → ℕ → Option (List Packet)
pack_loop zero p offset = none
pack_loop (suc fuel) p offset =
    let n = length p in
    let next = offset + chunk_of n offset in
    let rest = pack_loop fuel p next in
    if ltb next n
    then elim rest [ none ↦ none | some packets ↦ some (round p offset ∷ packets) ]
    else some (round p offset ∷ [])

-- `none` is the null pointer.
pub pack_sys_ex7 : Option (List ℕ) → Option (List Packet)
pack_sys_ex7 none = some []
pack_sys_ex7 (some []) = some []
pack_sys_ex7 (some (x ∷ xs)) =
    let p = strip_end (strip_start (x ∷ xs)) in pack_loop (length p + 1) p 0

pub record Reassembler : Type 0 where
  pub content : List ℕ
  pub framed : List ℕ

pub fresh : Reassembler
fresh = record { content = []; framed = [] }

abbrev pub status_nibble_of : ℕ → ℕ
status_nibble_of w0 = bit_and (w0 >>> 20) 0xF

abbrev pub num_bytes_of : ℕ → ℕ
num_bytes_of w0 = bit_and (w0 >>> 16) 0xF

abbrev pub bytes_of : ℕ → ℕ → List ℕ
bytes_of w0 w1 =
    bit_and (w0 >>> 8) 0xFF
    ∷ bit_and w0 0xFF
    ∷ bit_and (w1 >>> 24) 0xFF
    ∷ bit_and (w1 >>> 16) 0xFF
    ∷ bit_and (w1 >>> 8) 0xFF
    ∷ bit_and w1 0xFF
    ∷ []

pub feed : Packet → Reassembler → Bool × Reassembler
feed q s =
    let status = status_nibble_of q.word0 in
    let kept = if status == 0 || status == 1 then [] else s.content in
    let content = kept ++ take (num_bytes_of q.word0) (bytes_of q.word0 q.word1) in
    if status == 0 || status == 3
    then (true, record { content = []; framed = (0xF0 ∷ content) ++ 0xF7 ∷ [] })
    else (false, record s { content = content })

pub reset : Reassembler → Reassembler
reset s = record { content = []; framed = [] }

-- A caller's loop: it takes the framed message whenever `feed` returns true.
pub feed_all : List Packet → Reassembler → List (List ℕ) × Reassembler
feed_all [] s = ([], s)
feed_all (q ∷ qs) s =
    let (ready, s') = feed q s in
    let (messages, last) = feed_all qs s' in
    (if ready then s'.framed ∷ messages else messages, last)
