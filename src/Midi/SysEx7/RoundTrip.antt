-- ===== src/Midi/SysEx7/RoundTrip.antt =====
-- What `packSysEx7` emits, `SysEx7Reassembler` puts together again.
use native.Mathlib.Nat.{min-eq_left}
use native.Mathlib.Decide.{dec_lt}
use wrac_plugin_template.Prelude.{
  ℕ, zero, suc, ◌+◌, ◌-◌, ◌≤◌, ◌<◌, ◌≡◌, ◌⊎◌, inl, inr, refl, sym, ap, ◌∙◌, List, [], ◌∷◌, ◌++◌,
  true, false, Bool, Option, some, arith, length, take, drop, replicate, All, All-append, All-take,
  All-drop, All-replicate, take-append, take-add, take-all, length-append, length-take, length-drop,
  length-replicate, ◌==◌, ◌||◌, if◌then◌else◌, get_or,
}
use wrac_plugin_template.Midi.SysEx7.{
  Packet, strip_start, strip_end, status_of, chunk_of, round, pack_loop, pack_sys_ex7, Reassembler,
  feed, feed_all, bytes_of, num_bytes_of, status_nibble_of,
}
use wrac_plugin_template.Midi.SysEx7.Words.{list_fields}

abbrev pub IsBytes : List ℕ → Type 0
IsBytes = All λ x. x < 256

abbrev pub framing : List ℕ → List ℕ
framing p = (0xF0 ∷ p) ++ 0xF7 ∷ []

-- What `feed` does with a packet of the given status and content bytes.
abbrev absorb : ℕ → List ℕ → Reassembler → Bool × Reassembler
absorb status xs s =
    let content = (if status == 0 || status == 1 then [] else s.content) ++ xs in
    if status == 0 || status == 3
    then (true, record { content = []; framed = framing content })
    else (false, record s { content = content })

module _ (p : List ℕ) (h : IsBytes p) (o : ℕ) where
  abbrev chunk : ℕ
  chunk = chunk_of (length p) o

  abbrev part : List ℕ
  part = take chunk (drop o p)

  length-part : length part ≡ chunk
  length-part = length-take chunk (drop o p) ∙ min-eq_left (ground (arith, length-drop o p))

  feed-round : (s : Reassembler) → feed (round p o) s ≡ absorb (status_of (length p) o chunk) part s
  unfolding feed
  feed-round s =
      rw
        (fields.0, fields.1, fields.2, take-append chunk part (replicate (6 - chunk) 0) length-part)
    where
      small : chunk ≤ 6
      small = ground arith

      fields :
          (status_nibble_of (round p o).word0 ≡ status_of (length p) o chunk)
          × (num_bytes_of (round p o).word0 ≡ chunk)
          × (bytes_of (round p o).word0 (round p o).word1 ≡ part ++ replicate (6 - chunk) 0)
      fields =
          list_fields (status_of (length p) o chunk) chunk (part ++ replicate (6 - chunk) 0)
            (ground arith) (omega (arith, small))
            (length-append part (replicate (6 - chunk) 0)
              ∙ omega (arith, length-part, length-replicate {A = ℕ} (6 - chunk) 0, small))
            (All-append (λ x. x < 256) part (replicate (6 - chunk) 0)
              (All-take (λ x. x < 256) chunk (drop o p) (All-drop (λ x. x < 256) o p h))
              (All-replicate (λ x. x < 256) (6 - chunk) 0 (omega arith)))

-- The loop returns, and the reassembler gets the framed content from its packets, once.
abbrev pub Delivers : List ℕ → Reassembler → Option (List Packet) → Type 0
Delivers p s r =
    (packets : List Packet) × (r ≡ some packets)
    × (feed_all packets s ≡ (framing p ∷ [], record { content = []; framed = framing p }))

-- Where the loop stands: at the start, or inside a content of more than six bytes of which the
-- reassembler has what lies before.
abbrev Stands : List ℕ → ℕ → Reassembler → Type 0
Stands p o s = (o ≡ 0) ⊎ ((6 < length p) × (0 < o) × (o < length p) × (s.content ≡ take o p))

module _ (p : List ℕ) (h : IsBytes p) (o : ℕ) (s : Reassembler) (st : Stands p o s) where
  abbrev status : ℕ
  status = status_of (length p) o (chunk p h o)

  -- A start forgets what the reassembler had; else it has what lies before.
  before : (if status == 0 || status == 1 then [] else s.content) ≡ take o p
  before = elim st [
    | inl start ↦ ground (arith, ap (λ (i : ℕ). take i p) start)
    | inr (long, later, inside, kept) ↦ ground arith
  ]

  upto :
      (if status == 0 || status == 1 then [] else s.content) ++ part p h o
      ≡ take (o + chunk p h o) p
  upto = ap (λ (l : List ℕ). l ++ part p h o) before ∙ sym (take-add o (chunk p h o) p)

  feed_last :
      length p ≤ o + 6 → feed (round p o) s ≡ (true, record { content = []; framed = framing p })
  feed_last last =
      feed-round p h o s ∙ ground (arith, upto ∙ take-all (o + chunk p h o) p (ground arith))

  feed_more : o + 6 < length p → feed (round p o) s ≡ (false, record s { content = take (o + 6) p })
  feed_more more =
      feed-round p h o s
      ∙ ground
          (arith, upto, ap (λ (c : ℕ). take (o + c) p) {x = chunk p h o} {y = 6} (ground arith))

  deliver_last : (fuel : ℕ) → length p ≤ o + 6 → Delivers p s (pack_loop (suc fuel) p o)
  unfolding pack_loop feed_all
  deliver_last fuel last = (round p o ∷ [], ground arith, rw (feed_last last))

  deliver_more :
      (fuel : ℕ)
      → o + 6 < length p
      → Delivers p (record s { content = take (o + 6) p }) (pack_loop fuel p (o + 6))
      → Delivers p s (pack_loop (suc fuel) p o)
  unfolding pack_loop feed_all
  deliver_more fuel more (packets, e, d) =
      (round p o ∷ packets, returns, rw (feed_more more) (ground (arith, d)))
    where
      six : chunk p h o ≡ 6
      six = ground arith

      returns : pack_loop (suc fuel) p o ≡ some (round p o ∷ packets)
      returns = rw (six, e) (ground arith)

pack_loop-Delivers :
    (fuel : ℕ) (p : List ℕ) (h : IsBytes p) (o : ℕ) (s : Reassembler)
    → length p - o < fuel
    → Stands p o s
    → Delivers p s (pack_loop fuel p o)
pack_loop-Delivers zero p h o s enough st = absurd (omega arith)
pack_loop-Delivers (suc fuel) p h o s enough st = elim (dec_lt (o + 6) (length p)) [
  | yes more ↦ deliver_more p h o s st fuel more (
      pack_loop-Delivers fuel p h (o + 6) (record s { content = take (o + 6) p }) (omega arith)
        (inr (omega arith, omega arith, more, refl)))
  | no last ↦ deliver_last p h o s st fuel (omega arith)
]

stripped-IsBytes : (xs : List ℕ) → IsBytes xs → IsBytes (strip_end (strip_start xs))
stripped-IsBytes [] h = tt
stripped-IsBytes (x ∷ xs) h = end-IsBytes (strip_start (x ∷ xs)) (ground arith)
  where
    end-IsBytes : (p : List ℕ) → IsBytes p → IsBytes (strip_end p)
    end-IsBytes p hp = ground (arith, All-take (λ x. x < 256) (length p - 1) p hp)

-- Whatever a reassembler held before, the packets of a payload that is not empty give it one
-- message, the payload's content in 0xF0 and 0xF7, and leave it with no content.
pub reassemble_pack :
    (x : ℕ) (xs : List ℕ) (s : Reassembler)
    → IsBytes (x ∷ xs)
    → Delivers (strip_end (strip_start (x ∷ xs))) s (pack_sys_ex7 (some (x ∷ xs)))
unfolding pack_sys_ex7
reassemble_pack x xs s h =
    pack_loop-Delivers (length p + 1) p (stripped-IsBytes (x ∷ xs) h) 0 s (omega arith) (inl refl)
  where
    p : List ℕ
    p = strip_end (strip_start (x ∷ xs))

last-append : (p : List ℕ) (x : ℕ) → get_or (p ++ x ∷ []) (length p) 0 ≡ x
last-append [] x = refl
last-append (y ∷ p) x = last-append p x

strip_end-append : (p : List ℕ) → strip_end (p ++ 0xF7 ∷ []) ≡ p
strip_end-append p =
    rw (all, less, last-append p 0xF7) (ground (arith, take-append (length p) p (0xF7 ∷ []) refl))
  where
    all : length (p ++ 0xF7 ∷ []) ≡ suc (length p)
    all = length-append p (0xF7 ∷ []) ∙ omega arith

    less : suc (length p) - 1 ≡ length p
    less = omega arith

-- A framed message comes back as it was, after any number of packets.
pub round_trip :
    (p : List ℕ) (s : Reassembler)
    → IsBytes p
    → (packets : List Packet) × (pack_sys_ex7 (some (framing p)) ≡ some packets)
      × ((feed_all packets s).0 ≡ framing p ∷ [])
round_trip p s h =
    let stripped : strip_end (strip_start (framing p)) ≡ p = strip_end-append p in
    let (packets, e, d) =
      reassemble_pack 0xF0 (p ++ 0xF7 ∷ []) s
        (omega arith, All-append (λ x. x < 256) p (0xF7 ∷ []) h (omega arith)) in
    (packets, e, ap (λ r. r.0) d ∙ rw stripped)
