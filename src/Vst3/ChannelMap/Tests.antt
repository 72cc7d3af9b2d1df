-- ===== src/Vst3/ChannelMap/Tests.antt =====
-- The arrangement 5.1 in the table with the constants of the SDKs.
use wrac_plugin_template.Prelude.{ℕ, ◌^◌, List, [], ◌∷◌, ◌≡◌, refl, true, some}
use wrac_plugin_template.Vst3.ChannelMap.{
  Speakers, Positions, k_speakers, clap_position_of, positions_of, channel_map_from_arrangement,
}
use wrac_plugin_template.Vst3.ChannelMap.RoundTrip.{distinct, Returns, channel_map-Returns}

abbrev speakers : Speakers
speakers = record {
  l = 1;
  r = 2;
  c = 4;
  lfe = 8;
  ls = 16;
  rs = 32;
  lc = 64;
  rc = 128;
  cs = 256;
  sl = 512;
  sr = 1024;
  tc = 2048;
  tfl = 4096;
  tfc = 8192;
  tfr = 16384;
  trl = 32768;
  trc = 65536;
  trr = 131072;
  tsl = 2 ^ 24;
  tsr = 2 ^ 25;
}

abbrev positions : Positions
positions = record {
  fl = 0;
  fr = 1;
  fc = 2;
  lfe = 3;
  bl = 4;
  br = 5;
  flc = 6;
  frc = 7;
  bc = 8;
  sl = 9;
  sr = 10;
  tc = 11;
  tfl = 12;
  tfc = 13;
  tfr = 14;
  tbl = 15;
  tbc = 16;
  tbr = 17;
  tsl = 18;
  tsr = 19;
}

abbrev surround : List ℕ
surround = 1 ∷ 2 ∷ 4 ∷ 8 ∷ 16 ∷ 32 ∷ []

table-distinct : distinct (k_speakers speakers positions) ≡ true
unfolding k_speakers
table-distinct = refl

surround_map :
    channel_map_from_arrangement (k_speakers speakers positions) surround
    ≡ some (0 ∷ 1 ∷ 2 ∷ 3 ∷ 4 ∷ 5 ∷ [])
unfolding k_speakers clap_position_of positions_of channel_map_from_arrangement
surround_map = refl

channel_map-Returns_example :
    Returns
      (k_speakers speakers positions)
      surround
      (channel_map_from_arrangement (k_speakers speakers positions) surround)
channel_map-Returns_example =
    channel_map-Returns (k_speakers speakers positions) surround table-distinct refl
