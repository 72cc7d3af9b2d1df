-- ===== src/Aax/AudioConfig/Tests.antt =====
-- A plugin with two stereo inputs and one output, which takes mono, stereo and 5.1, and plugins
-- without audio or without configurable ports.
use wrac_plugin_template.Prelude.{
  ℕ, ◌%◌, Bool, true, false, ◌*◌, ◌&&◌, ◌||◌, ◌==◌, ltb, if◌then◌else◌, List, [], ◌∷◌, All, none,
  some, ◌≡◌, refl, sym, ap, arith,
}
use wrac_plugin_template.Vst3.ChannelMap.{Positions}
use wrac_plugin_template.Aax.StemMaps.{StemFormats, aax_channel_maps}
use wrac_plugin_template.Aax.AudioConfig.{
  collect, config_requests, with_stem, offered, fallback, placeholders, probe, scan,
  get_available_bus_configs,
}
use wrac_plugin_template.Aax.Ports.{Sdk, AudioPorts, NotePorts, Request, StemFormatCombi}
use wrac_plugin_template.Aax.AudioConfig.Offered.{configurable, get_available_bus_configs-accepted}
use wrac_plugin_template.Aax.AudioConfig.WellFormed.{
  IsPort, mono, stereo, surround, get_available_bus_configs-IsPort,
}

-- Formats by their place in the table and their channels.
abbrev formats : StemFormats
formats = record {
  mono = 257;
  stereo = 514;
  lcr = 771;
  lcrs = 1028;
  quad = 1284;
  stem_5_0 = 1541;
  stem_5_1 = 1798;
  stem_6_0 = 2054;
  stem_6_1 = 2311;
  stem_7_0_sdds = 2567;
  stem_7_1_sdds = 2824;
  stem_7_0_dts = 3079;
  stem_7_1_dts = 3336;
  stem_7_0_2 = 3593;
  stem_7_1_2 = 3850;
  stem_5_0_2 = 4103;
  stem_5_1_2 = 4360;
  stem_5_0_4 = 4617;
  stem_5_1_4 = 4874;
  stem_7_0_4 = 5131;
  stem_7_1_4 = 5388;
  stem_7_0_6 = 5645;
  stem_7_1_6 = 5902;
  stem_9_0_4 = 6157;
  stem_9_1_4 = 6414;
  stem_9_0_6 = 6671;
  stem_9_1_6 = 6928;
}

abbrev positions : Positions
positions = record {
  fl = 0;
  fr = 1;
  fc = 2;
  lfe = 3;
  bl = 4;
  br = 5;
  flc = 6;
  frc = 7;
  bc = 8;
  sl = 9;
  sr = 10;
  tc = 11;
  tfl = 12;
  tfc = 13;
  tfr = 14;
  tbl = 15;
  tbc = 16;
  tbr = 17;
  tsl = 18;
  tsr = 19;
}

abbrev sdk : Sdk
sdk = record {
  formats = formats;
  positions = positions;
  channel_count = λ format. format % 256;
  port_mono = 1 ∷ [];
  port_stereo = 2 ∷ [];
  port_surround = 3 ∷ [];
  dialect_midi = 2;
  decimal = λ n. n ∷ [];
  unset = 77;
}

abbrev audio : AudioPorts
audio = record {
  count = λ is_input. if is_input then 2 else 1;
  get = λ i is_input. some (record { channel_count = 2; port_type = none });
}

abbrev output_only : AudioPorts
output_only = record {
  count = λ is_input. if is_input then 0 else 1;
  get = λ i is_input.
      if is_input then none else some (record { channel_count = 2; port_type = none });
}

abbrev first_count : List Request → ℕ
first_count [] = 0
first_count (c ∷ cs) = c.channel_count

abbrev takes : List Request → Bool
takes requests = ltb (first_count requests) 3 || first_count requests == 6

abbrev notes : NotePorts
notes = record {
  count = λ is_input. if is_input then 2 else 0;
  get = λ i is_input. some (record { supported_dialects = i * 2; name = i ∷ [] });
}

abbrev combi : ℕ → StemFormatCombi
combi f = record { name = f ∷ 0x2F ∷ f ∷ []; format_in = f; format_out = f; plugin_id = 0 }

abbrev taken : List StemFormatCombi
taken = combi 257 ∷ combi 514 ∷ combi 1798 ∷ combi 2054 ∷ []

configurable-taken :
    get_available_bus_configs sdk none (configurable audio takes (some notes)) ≡ record {
      stem_formats = taken;
      has_midi_in = true;
      has_midi_out = false;
      midi_in_name = 1 ∷ [];
      midi_out_name = [];
    }
unfolding get_available_bus_configs scan offered config_requests collect with_stem aax_channel_maps
    probe
configurable-taken = refl

-- A plugin with an output alone is asked about no port at all.
config_requests-output : config_requests output_only ≡ []
unfolding config_requests collect
config_requests-output = refl

-- Without configurable ports the first output stands for the first input as well.
fallback-output :
    fallback sdk output_only
    ≡ record {
      name = 0x53 ∷ 0x74 ∷ 0x65 ∷ 0x72 ∷ 0x65 ∷ 0x6F ∷ [];
      format_in = 0;
      format_out = 514;
      plugin_id = 0;
    }
      ∷ []
unfolding fallback
fallback-output = refl

scan-notes :
    (get_available_bus_configs sdk none (record {
      audio_ports = none;
      can_apply_configuration = none;
      note_ports = some notes;
    })).stem_formats
    ≡ placeholders sdk
unfolding get_available_bus_configs scan probe
scan-notes = refl

get_available_bus_configs-accepted_example :
    (get_available_bus_configs sdk none (configurable audio takes (some notes))).stem_formats
    ≡ taken
unfolding aax_channel_maps probe
get_available_bus_configs-accepted_example =
    get_available_bus_configs-accepted sdk audio takes (some notes) (λ i l. refl) (omega arith)

-- A plugin that would also take a surround port without channels.
abbrev is_empty_surround : List Request → Bool
is_empty_surround [] = false
is_empty_surround (c ∷ cs) =
    c.channel_count == 5 && elim c.port_details [ none ↦ true | some ps ↦ false ]

abbrev takes_more : List Request → Bool
takes_more requests = is_empty_surround requests || takes requests

is_empty_surround-ArePorts :
    (requests : List Request) → All (IsPort sdk) requests → is_empty_surround requests ≡ false
is_empty_surround-ArePorts [] h = refl
is_empty_surround-ArePorts (c ∷ cs) (mono n t d, h) = ground (arith, n)
is_empty_surround-ArePorts (c ∷ cs) (stereo n t d, h) = ground (arith, n)
is_empty_surround-ArePorts (c ∷ cs) (surround ps n t d, h) = rw d (ground arith)

get_available_bus_configs-IsPort_example :
    get_available_bus_configs sdk none (configurable audio takes (some notes))
    ≡ get_available_bus_configs sdk none (configurable audio takes_more (some notes))
get_available_bus_configs-IsPort_example =
    get_available_bus_configs-IsPort sdk none audio takes takes_more (some notes) refl
      (λ requests h. ap (λ b. b || takes requests) (sym (is_empty_surround-ArePorts requests h)))
