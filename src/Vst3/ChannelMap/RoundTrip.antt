-- ===== src/Vst3/ChannelMap/RoundTrip.antt =====
-- An arrangement that has a channel map comes back from it.
use wrac_plugin_template.Prelude.{
  suc, length, ◌||◌, ◌&&◌, not, ltb, leb, ℕ, Bool, true, false, ◌==◌, bit_or, List, [], ◌∷◌, Option,
  none, some, ◌≡◌, refl, arith,
}
use wrac_plugin_template.Vst3.ChannelMap.{
  Entry, clap_position_of, speaker_of, positions_of, channel_map_from_arrangement, arrangement_loop,
  arrangement_from_channel_map,
}

-- No position stands twice in a table.
abbrev pub lists : List Entry → ℕ → Bool
lists [] position = false
lists (e ∷ es) position = e.clap == position || lists es position

abbrev pub distinct : List Entry → Bool
distinct [] = true
distinct (e ∷ es) = not (lists es e.clap) && distinct es

-- The speakers of an arrangement come in ascending order, from above a bound.
abbrev pub ascending : ℕ → List ℕ → Bool
ascending previous [] = true
ascending previous (s ∷ ss) = ltb previous s && ascending s ss

-- The arrangement with the given speakers besides those of `arr`.
abbrev pub joined : ℕ → List ℕ → ℕ
joined arr [] = arr
joined arr (s ∷ ss) = joined (bit_or arr s) ss

position-listed :
    (table : List Entry) (s p : ℕ) → clap_position_of table s ≡ some p → lists table p ≡ true
unfolding clap_position_of
position-listed [] s p h = absurd (ground (arith, h))
position-listed (e ∷ es) s p h = ground (arith, position-listed es s p, h)

-- A speaker is found again at its position.
speaker_of-position :
    (table : List Entry) (s p : ℕ)
    → distinct table ≡ true
    → clap_position_of table s ≡ some p
    → speaker_of table p ≡ s
unfolding clap_position_of speaker_of
speaker_of-position [] s p d h = absurd (ground (arith, h))
speaker_of-position (e ∷ es) s p d h =
    ground (arith, speaker_of-position es s p, position-listed es s p, h)

-- Whether every speaker has a position.
abbrev pub covered : List Entry → List ℕ → Bool
covered table [] = true
covered table (s ∷ ss) = elim (clap_position_of table s) [
  | none ↦ false
  | some p ↦ covered table ss
]

-- No map, if a speaker is not covered; else one from which the loop makes the arrangement.
abbrev Loops : List Entry → ℕ → ℕ → Bool → ℕ → ℕ → Option (List ℕ) → Type 0
Loops table arr previous all count made none = all ≡ false
Loops table arr previous all count made (some map) =
    (all ≡ true) × (length map ≡ count) × (arrangement_loop table arr previous map ≡ made)

module _ (table : List Entry) (d : distinct table ≡ true) where
  positions_of-Loops :
      (arr previous : ℕ) (ss : List ℕ)
      → ascending previous ss ≡ true
      → Loops table arr previous
          (covered table ss)
          (length ss)
          (joined arr ss)
          (positions_of table ss)
  unfolding positions_of arrangement_loop
  positions_of-Loops arr previous [] a = (refl, refl, refl)
  positions_of-Loops arr previous (s ∷ ss) a =
      first (clap_position_of table s) refl (positions_of-Loops (bit_or arr s) s ss (ground arith))
    where
      rest :
          (p : ℕ) (o : Option (List ℕ))
          → speaker_of table p ≡ s
          → Loops table (bit_or arr s) s (covered table ss) (length ss) (joined (bit_or arr s) ss) o
          → Loops table arr previous
              (covered table ss)
              (suc (length ss))
              (joined arr (s ∷ ss))
              (elim o as (λ x. Option (List ℕ)) [ none ↦ none | some ps ↦ some (p ∷ ps) ])
      rest p none found h = h
      rest p (some ps) found (h, n, l) =
          let above : (s == 0 || leb s previous) ≡ false = ground arith in
          (h, omega (arith, n), rw (found, above) l)

      first :
          (o : Option ℕ)
          → clap_position_of table s ≡ o
          → Loops table
              (bit_or arr s)
              s
              (covered table ss)
              (length ss)
              (joined (bit_or arr s) ss)
              (positions_of table ss)
          → Loops table arr previous
              (elim o as (λ x. Bool) [ none ↦ false | some p ↦ covered table ss ])
              (suc (length ss))
              (joined arr (s ∷ ss))
              (elim o as (λ x. Option (List ℕ)) [
                | none ↦ none
                | some p ↦ elim (positions_of table ss) as (λ x. Option (List ℕ)) [
                  | none ↦ none
                  | some ps ↦ some (p ∷ ps)
                ]
              ])
      first none c looped = refl
      first (some p) c looped =
          rest p (positions_of table ss) (speaker_of-position table s p d c) looped

-- The same of the two functions of the file.
abbrev pub Returns : List Entry → List ℕ → Option (List ℕ) → Type 0
Returns table speakers none = (ltb 0 (length speakers) && covered table speakers) ≡ false
Returns table speakers (some map) =
    ((ltb 0 (length speakers) && covered table speakers) ≡ true)
    × (length map ≡ length speakers)
    × (arrangement_from_channel_map table (some map) ≡ joined 0 speakers)

-- An arrangement has a channel map exactly if it has speakers and each has a position; the map then
-- has a position for each speaker, and the arrangement that is made of it has the same speakers. No
-- position stands twice in the table, and the speakers of the arrangement ascend.
pub channel_map-Returns :
    (table : List Entry) (speakers : List ℕ)
    → distinct table ≡ true
    → ascending 0 speakers ≡ true
    → Returns table speakers (channel_map_from_arrangement table speakers)
unfolding channel_map_from_arrangement arrangement_from_channel_map
channel_map-Returns table [] d a = refl
channel_map-Returns table (s ∷ ss) d a =
    go (positions_of table (s ∷ ss)) (positions_of-Loops table d 0 0 (s ∷ ss) a)
  where
    go :
        (o : Option (List ℕ))
        → Loops table 0 0 (covered table (s ∷ ss)) (length (s ∷ ss)) (joined 0 (s ∷ ss)) o
        → Returns table (s ∷ ss) o
    go none h = ground (arith, h)
    go (some []) (h, n, l) = absurd (omega (arith, n))
    go (some (p ∷ ps)) (h, n, l) = (ground (arith, h), n, l)
