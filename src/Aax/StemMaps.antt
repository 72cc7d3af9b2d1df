-- ===== src/Aax/StemMaps.antt =====
-- The channel maps of clap_wrapper_builder/clap-wrapper/src/detail/aax/audioconfig.cpp: for each stem
-- format of AAX, the positions of CLAP that its channels have. The constants of the two SDKs are
-- parameters. The identifiers of the table, which nothing reads, are left out.
use wrac_plugin_template.Prelude.{ℕ, List, [], ◌∷◌}
use wrac_plugin_template.Vst3.ChannelMap.{Positions}

-- The constants `AAX_eStemFormat_`, in the order of the table.
pub record StemFormats : Type 0 where
  pub mono : ℕ
  pub stereo : ℕ
  pub lcr : ℕ
  pub lcrs : ℕ
  pub quad : ℕ
  pub stem_5_0 : ℕ
  pub stem_5_1 : ℕ
  pub stem_6_0 : ℕ
  pub stem_6_1 : ℕ
  pub stem_7_0_sdds : ℕ
  pub stem_7_1_sdds : ℕ
  pub stem_7_0_dts : ℕ
  pub stem_7_1_dts : ℕ
  pub stem_7_0_2 : ℕ
  pub stem_7_1_2 : ℕ
  pub stem_5_0_2 : ℕ
  pub stem_5_1_2 : ℕ
  pub stem_5_0_4 : ℕ
  pub stem_5_1_4 : ℕ
  pub stem_7_0_4 : ℕ
  pub stem_7_1_4 : ℕ
  pub stem_7_0_6 : ℕ
  pub stem_7_1_6 : ℕ
  pub stem_9_0_4 : ℕ
  pub stem_9_1_4 : ℕ
  pub stem_9_0_6 : ℕ
  pub stem_9_1_6 : ℕ

-- `sAAXStemIndexToClapMap`; `mapsize` is the length of `clap_map`.
pub record StemMap : Type 0 where
  pub aax_stem_format : ℕ
  pub clap_map : List ℕ

module _ (p : Positions) where
  abbrev pub aax2clap_mono : List ℕ
  aax2clap_mono = p.fc ∷ []

  abbrev pub aax2clap_stereo : List ℕ
  aax2clap_stereo = p.fl ∷ p.fr ∷ []

  abbrev pub aax2clap_lcr : List ℕ
  aax2clap_lcr = p.fl ∷ p.fc ∷ p.fr ∷ []

  abbrev pub aax2clap_lcrs : List ℕ
  aax2clap_lcrs = p.fl ∷ p.fc ∷ p.fr ∷ p.bc ∷ []

  abbrev pub aax2clap_quad : List ℕ
  aax2clap_quad = p.fl ∷ p.fr ∷ p.sl ∷ p.sr ∷ []

  abbrev pub aax2clap_5_0 : List ℕ
  aax2clap_5_0 = p.fl ∷ p.fc ∷ p.fr ∷ p.sl ∷ p.sr ∷ []

  abbrev pub aax2clap_5_1 : List ℕ
  aax2clap_5_1 = p.fl ∷ p.fc ∷ p.fr ∷ p.sl ∷ p.sr ∷ p.lfe ∷ []

  abbrev pub aax2clap_6_0 : List ℕ
  aax2clap_6_0 = p.fl ∷ p.fc ∷ p.fr ∷ p.sl ∷ p.bc ∷ p.sr ∷ []

  abbrev pub aax2clap_6_1 : List ℕ
  aax2clap_6_1 = p.fl ∷ p.fc ∷ p.fr ∷ p.sl ∷ p.bc ∷ p.sr ∷ p.lfe ∷ []

  abbrev pub aax2clap_7_0_sdds : List ℕ
  aax2clap_7_0_sdds = p.fl ∷ p.flc ∷ p.fc ∷ p.frc ∷ p.fr ∷ p.sl ∷ p.sr ∷ []

  abbrev pub aax2clap_7_1_sdds : List ℕ
  aax2clap_7_1_sdds = p.fl ∷ p.flc ∷ p.fc ∷ p.frc ∷ p.fr ∷ p.sl ∷ p.sr ∷ p.lfe ∷ []

  abbrev pub aax2clap_7_0_dts : List ℕ
  aax2clap_7_0_dts = p.fl ∷ p.fc ∷ p.fr ∷ p.sl ∷ p.sr ∷ p.bl ∷ p.br ∷ []

  abbrev pub aax2clap_7_1_dts : List ℕ
  aax2clap_7_1_dts = p.fl ∷ p.fc ∷ p.fr ∷ p.sl ∷ p.sr ∷ p.bl ∷ p.br ∷ p.lfe ∷ []

  abbrev pub aax2clap_7_0_2 : List ℕ
  aax2clap_7_0_2 = p.fl ∷ p.fc ∷ p.fr ∷ p.sl ∷ p.sr ∷ p.bl ∷ p.br ∷ p.tsl ∷ p.tsr ∷ []

  abbrev pub aax2clap_7_1_2 : List ℕ
  aax2clap_7_1_2 = p.fl ∷ p.fc ∷ p.fr ∷ p.sl ∷ p.sr ∷ p.bl ∷ p.br ∷ p.lfe ∷ p.tsl ∷ p.tsr ∷ []

  abbrev pub aax2clap_5_0_2 : List ℕ
  aax2clap_5_0_2 = p.fl ∷ p.fc ∷ p.fr ∷ p.sl ∷ p.sr ∷ p.tsl ∷ p.tsr ∷ []

  abbrev pub aax2clap_5_1_2 : List ℕ
  aax2clap_5_1_2 = p.fl ∷ p.fc ∷ p.fr ∷ p.sl ∷ p.sr ∷ p.lfe ∷ p.tsl ∷ p.tsr ∷ []

  abbrev pub aax2clap_5_0_4 : List ℕ
  aax2clap_5_0_4 = p.fl ∷ p.fc ∷ p.fr ∷ p.sl ∷ p.sr ∷ p.tfl ∷ p.tfr ∷ p.tbl ∷ p.tbr ∷ []

  abbrev pub aax2clap_5_1_4 : List ℕ
  aax2clap_5_1_4 = p.fl ∷ p.fc ∷ p.fr ∷ p.sl ∷ p.sr ∷ p.lfe ∷ p.tfl ∷ p.tfr ∷ p.tbl ∷ p.tbr ∷ []

  abbrev pub aax2clap_7_0_4 : List ℕ
  aax2clap_7_0_4 =
      p.fl ∷ p.fc ∷ p.fr ∷ p.sl ∷ p.sr ∷ p.bl ∷ p.br ∷ p.tfl ∷ p.tfr ∷ p.tbl ∷ p.tbr ∷ []

  abbrev pub aax2clap_7_1_4 : List ℕ
  aax2clap_7_1_4 =
      p.fl ∷ p.fc ∷ p.fr ∷ p.sl ∷ p.sr ∷ p.bl ∷ p.br ∷ p.lfe ∷ p.tfl ∷ p.tfr ∷ p.tbl ∷ p.tbr ∷ []

  abbrev pub aax2clap_7_0_6 : List ℕ
  aax2clap_7_0_6 =
      p.fl ∷ p.fc ∷ p.fr ∷ p.sl ∷ p.sr ∷ p.bl ∷ p.br ∷ p.tfl ∷ p.tfr ∷ p.tsl ∷ p.tsr ∷ p.tbl ∷ p.tbr
      ∷ []

  abbrev pub aax2clap_7_1_6 : List ℕ
  aax2clap_7_1_6 =
      p.fl ∷ p.fc ∷ p.fr ∷ p.sl ∷ p.sr ∷ p.bl ∷ p.br ∷ p.lfe ∷ p.tfl ∷ p.tfr ∷ p.tsl ∷ p.tsr ∷ p.tbl
      ∷ p.tbr ∷ []

  abbrev pub aax2clap_9_0_4 : List ℕ
  aax2clap_9_0_4 =
      p.fl ∷ p.fc ∷ p.fr ∷ p.flc ∷ p.frc ∷ p.sl ∷ p.sr ∷ p.bl ∷ p.br ∷ p.tfl ∷ p.tfr ∷ p.tbl ∷ p.tbr
      ∷ []

  abbrev pub aax2clap_9_1_4 : List ℕ
  aax2clap_9_1_4 =
      p.fl ∷ p.fc ∷ p.fr ∷ p.flc ∷ p.frc ∷ p.sl ∷ p.sr ∷ p.bl ∷ p.br ∷ p.lfe ∷ p.tfl ∷ p.tfr ∷ p.tbl
      ∷ p.tbr ∷ []

  abbrev pub aax2clap_9_0_6 : List ℕ
  aax2clap_9_0_6 =
      p.fl ∷ p.fc ∷ p.fr ∷ p.flc ∷ p.frc ∷ p.sl ∷ p.sr ∷ p.bl ∷ p.br ∷ p.tfl ∷ p.tfr ∷ p.tsl ∷ p.tsr
      ∷ p.tbl ∷ p.tbr ∷ []

  abbrev pub aax2clap_9_1_6 : List ℕ
  aax2clap_9_1_6 =
      p.fl ∷ p.fc ∷ p.fr ∷ p.flc ∷ p.frc ∷ p.sl ∷ p.sr ∷ p.bl ∷ p.br ∷ p.lfe ∷ p.tfl ∷ p.tfr ∷ p.tsl
      ∷ p.tsr ∷ p.tbl ∷ p.tbr ∷ []

abbrev stem_map : ℕ → List ℕ → StemMap
stem_map format positions = record { aax_stem_format = format; clap_map = positions }

-- `aaxchannelmaps`
unfoldable pub aax_channel_maps : StemFormats → Positions → List StemMap
aax_channel_maps f p =
    stem_map f.mono (aax2clap_mono p)
    ∷ stem_map f.stereo (aax2clap_stereo p)
    ∷ stem_map f.lcr (aax2clap_lcr p)
    ∷ stem_map f.lcrs (aax2clap_lcrs p)
    ∷ stem_map f.quad (aax2clap_quad p)
    ∷ stem_map f.stem_5_0 (aax2clap_5_0 p)
    ∷ stem_map f.stem_5_1 (aax2clap_5_1 p)
    ∷ stem_map f.stem_6_0 (aax2clap_6_0 p)
    ∷ stem_map f.stem_6_1 (aax2clap_6_1 p)
    ∷ stem_map f.stem_7_0_sdds (aax2clap_7_0_sdds p)
    ∷ stem_map f.stem_7_1_sdds (aax2clap_7_1_sdds p)
    ∷ stem_map f.stem_7_0_dts (aax2clap_7_0_dts p)
    ∷ stem_map f.stem_7_1_dts (aax2clap_7_1_dts p)
    ∷ stem_map f.stem_7_0_2 (aax2clap_7_0_2 p)
    ∷ stem_map f.stem_7_1_2 (aax2clap_7_1_2 p)
    ∷ stem_map f.stem_5_0_2 (aax2clap_5_0_2 p)
    ∷ stem_map f.stem_5_1_2 (aax2clap_5_1_2 p)
    ∷ stem_map f.stem_5_0_4 (aax2clap_5_0_4 p)
    ∷ stem_map f.stem_5_1_4 (aax2clap_5_1_4 p)
    ∷ stem_map f.stem_7_0_4 (aax2clap_7_0_4 p)
    ∷ stem_map f.stem_7_1_4 (aax2clap_7_1_4 p)
    ∷ stem_map f.stem_7_0_6 (aax2clap_7_0_6 p)
    ∷ stem_map f.stem_7_1_6 (aax2clap_7_1_6 p)
    ∷ stem_map f.stem_9_0_4 (aax2clap_9_0_4 p)
    ∷ stem_map f.stem_9_1_4 (aax2clap_9_1_4 p)
    ∷ stem_map f.stem_9_0_6 (aax2clap_9_0_6 p)
    ∷ stem_map f.stem_9_1_6 (aax2clap_9_1_6 p)
    ∷ []
