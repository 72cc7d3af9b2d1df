-- ===== src/Vst3/ChannelMap.antt =====
-- clap_wrapper_builder/clap-wrapper/src/detail/vst3/channelmap.cpp: speaker arrangements of VST3 and
-- channel maps of CLAP. The constants of the two SDKs are parameters, and so is what the VST3 SDK
-- says of the speakers in an arrangement.
pub mod RoundTrip
mod Tests
use wrac_plugin_template.Prelude.{
  ◌||◌, ltb, leb, ℕ, Bool, true, false, ◌==◌, bit_or, List, [], ◌∷◌, Option, none, some,
  if◌then◌else◌,
}

pub record Entry : Type 0 where
  pub vst3 : ℕ
  pub clap : ℕ

-- The speakers of VST3 that CLAP has a position for, and the positions of CLAP.
pub record Speakers : Type 0 where
  pub l : ℕ
  pub r : ℕ
  pub c : ℕ
  pub lfe : ℕ
  pub ls : ℕ
  pub rs : ℕ
  pub lc : ℕ
  pub rc : ℕ
  pub cs : ℕ
  pub sl : ℕ
  pub sr : ℕ
  pub tc : ℕ
  pub tfl : ℕ
  pub tfc : ℕ
  pub tfr : ℕ
  pub trl : ℕ
  pub trc : ℕ
  pub trr : ℕ
  pub tsl : ℕ
  pub tsr : ℕ

pub record Positions : Type 0 where
  pub fl : ℕ
  pub fr : ℕ
  pub fc : ℕ
  pub lfe : ℕ
  pub bl : ℕ
  pub br : ℕ
  pub flc : ℕ
  pub frc : ℕ
  pub bc : ℕ
  pub sl : ℕ
  pub sr : ℕ
  pub tc : ℕ
  pub tfl : ℕ
  pub tfc : ℕ
  pub tfr : ℕ
  pub tbl : ℕ
  pub tbc : ℕ
  pub tbr : ℕ
  pub tsl : ℕ
  pub tsr : ℕ

abbrev pub entry : ℕ → ℕ → Entry
entry vst3 clap = record { vst3 = vst3; clap = clap }

-- `kSpeakers`
unfoldable pub k_speakers : Speakers → Positions → List Entry
k_speakers s p =
    entry s.l p.fl
    ∷ entry s.r p.fr
    ∷ entry s.c p.fc
    ∷ entry s.lfe p.lfe
    ∷ entry s.ls p.bl
    ∷ entry s.rs p.br
    ∷ entry s.lc p.flc
    ∷ entry s.rc p.frc
    ∷ entry s.cs p.bc
    ∷ entry s.sl p.sl
    ∷ entry s.sr p.sr
    ∷ entry s.tc p.tc
    ∷ entry s.tfl p.tfl
    ∷ entry s.tfc p.tfc
    ∷ entry s.tfr p.tfr
    ∷ entry s.trl p.tbl
    ∷ entry s.trc p.tbc
    ∷ entry s.trr p.tbr
    ∷ entry s.tsl p.tsl
    ∷ entry s.tsr p.tsr
    ∷ []

-- The searches of a table; `none` and 0 for what it lacks.
pub clap_position_of : List Entry → ℕ → Option ℕ
clap_position_of [] speaker = none
clap_position_of (e ∷ es) speaker =
    let rest = clap_position_of es speaker in if e.vst3 == speaker then some e.clap else rest

pub speaker_of : List Entry → ℕ → ℕ
speaker_of [] position = 0
speaker_of (e ∷ es) position =
    let rest = speaker_of es position in if e.clap == position then e.vst3 else rest

-- The loop over the channels, whose speakers the SDK gives in order.
pub positions_of : List Entry → List ℕ → Option (List ℕ)
positions_of table [] = some []
positions_of table (s ∷ ss) = elim (clap_position_of table s) [
  | none ↦ none
  | some p ↦ elim (positions_of table ss) [ none ↦ none | some ps ↦ some (p ∷ ps) ]
]

-- `speakers` are those of the arrangement; none for a count that is not positive.
pub channel_map_from_arrangement : List Entry → List ℕ → Option (List ℕ)
channel_map_from_arrangement table [] = none
channel_map_from_arrangement table (s ∷ ss) = positions_of table (s ∷ ss)

-- The loop, with the arrangement so far and the previous speaker; 0 is `kEmpty`.
pub arrangement_loop : List Entry → ℕ → ℕ → List ℕ → ℕ
arrangement_loop table arr previous [] = arr
arrangement_loop table arr previous (p ∷ ps) =
    let speaker = speaker_of table p in
    let rest = arrangement_loop table (bit_or arr speaker) speaker ps in
    if speaker == 0 || leb speaker previous then 0 else rest

-- `none` is the null pointer.
pub arrangement_from_channel_map : List Entry → Option (List ℕ) → ℕ
arrangement_from_channel_map table none = 0
arrangement_from_channel_map table (some []) = 0
arrangement_from_channel_map table (some (p ∷ ps)) = arrangement_loop table 0 0 (p ∷ ps)

-- The ambisonic arrangements of VST3, and the constants of CLAP.
pub record Ambisonics : Type 0 where
  pub ordering_acn : ℕ
  pub normalization_sn3d : ℕ
  pub order1 : ℕ
  pub order2 : ℕ
  pub order3 : ℕ

pub record AmbisonicConfig : Type 0 where
  pub ordering : ℕ
  pub normalization : ℕ

module _ (a : Ambisonics) (is_ambisonics : ℕ → Bool) where
  pub ambisonic_config_from_arrangement : ℕ → Option AmbisonicConfig
  ambisonic_config_from_arrangement arr =
      if is_ambisonics arr
      then some (record { ordering = a.ordering_acn; normalization = a.normalization_sn3d })
      else none

  pub arrangement_from_ambisonic_config : AmbisonicConfig → ℕ → ℕ
  arrangement_from_ambisonic_config config channel_count =
      if config.ordering == a.ordering_acn
      then if channel_count == 4
        then a.order1
        else if channel_count == 9
        then a.order2
        else if channel_count == 16
        then a.order3
        else 0
      else 0
