-- ===== src/Vst3/Transport.antt =====
-- The transport of a block: the first part of `process`, which converts the `ProcessContext` of the
-- host.
pub mod Flags
use wrac_plugin_template.Prelude.{
  bit_and, bit_or, ℕ, Bool, true, false, ◌==◌, Option, none, some, if◌then◌else◌, not,
}
use wrac_plugin_template.Prelude.Int.{pos, ℤ}
use wrac_plugin_template.Prelude.Double.{Doubles}

-- The bits of `ProcessContext::state`.
pub record StateBits : Type 0 where
  pub playing : ℕ
  pub recording : ℕ
  pub cycle_active : ℕ
  pub tempo_valid : ℕ
  pub bar_position_valid : ℕ
  pub time_sig_valid : ℕ
  pub project_time_music_valid : ℕ
  pub cycle_valid : ℕ

-- The flags of CLAP.
pub record TransportFlags : Type 0 where
  pub has_tempo : ℕ
  pub has_beats_timeline : ℕ
  pub has_seconds_timeline : ℕ
  pub has_time_signature : ℕ
  pub is_playing : ℕ
  pub is_recording : ℕ
  pub is_loop_active : ℕ

abbrev pub has : ℕ → ℕ → Bool
has state bit = not (bit_and state bit == 0)

abbrev pub when : Bool → ℕ → ℕ
when b flag = if b then flag else 0

module _ (bits : StateBits) (flags : TransportFlags) where
  pub flags_of : ℕ → ℕ
  flags_of state =
      let converted =
        bit_or
          (bit_or
            (bit_or
              (bit_or
                (bit_or (when (has state bits.playing) flags.is_playing)
                  (when (has state bits.recording) flags.is_recording))
                (when (has state bits.cycle_active) flags.is_loop_active))
              (when (has state bits.tempo_valid) flags.has_tempo))
            (when (has state bits.bar_position_valid) flags.has_beats_timeline))
          (when (has state bits.time_sig_valid) flags.has_time_signature) in
      let timed = bit_or converted flags.has_seconds_timeline in
      if has state bits.project_time_music_valid
      then bit_or timed flags.has_beats_timeline
      else timed

-- `round` and the factors of CLAP for beats and seconds are parameters.
module _ (doubles : Doubles) (round : doubles.Double → ℤ)
    (beattime_factor sectime_factor : doubles.Double) (of_int64 : ℤ → doubles.Double)
    (bits : StateBits) (clap : TransportFlags) where
  open doubles use {Double, lit, mul, div}

  pub record ProcessContext : Type 0 where
    pub state : ℕ
    pub project_time_samples : ℤ
    pub sample_rate : Double
    pub project_time_music : Double
    pub tempo : Double
    pub cycle_start_music : Double
    pub cycle_end_music : Double
    pub time_sig_numerator : ℤ
    pub time_sig_denominator : ℤ
    pub bar_position_music : Double

  pub record TransportEvent : Type 0 where
    pub flags : ℕ
    pub song_pos_beats : ℤ
    pub song_pos_seconds : ℤ
    pub tempo : Double
    pub tempo_inc : Double
    pub loop_start_beats : ℤ
    pub loop_end_beats : ℤ
    pub loop_start_seconds : ℤ
    pub loop_end_seconds : ℤ
    pub tsig_num : ℤ
    pub tsig_denom : ℤ
    pub bar_start : ℤ
    pub bar_number : ℤ

  abbrev pub double_to_beat_time : Double → ℤ
  double_to_beat_time t = round (mul t beattime_factor)

  abbrev pub double_to_sec_time : Double → ℤ
  double_to_sec_time t = round (mul t sectime_factor)

  -- The transport and the steady time; without a context only the flags are cleared. `to_int64` is
  -- the conversion of the bar start, which is not rounded.
  pub convert_transport :
      (to_int64 : Double → ℤ) → Option ProcessContext → TransportEvent × ℤ → TransportEvent × ℤ
  convert_transport to_int64 none (t, steady) = (record t { flags = 0 }, steady)
  convert_transport to_int64 (some c) (t, steady) =
      let s = c.state in
      (
        record {
          flags = flags_of bits clap s;
          song_pos_beats =
              if has s bits.project_time_music_valid
              then double_to_beat_time c.project_time_music
              else pos 0;
          song_pos_seconds =
              double_to_sec_time (div (of_int64 c.project_time_samples) c.sample_rate);
          tempo = if has s bits.tempo_valid then c.tempo else lit 120;
          tempo_inc = lit 0;
          loop_start_beats =
              if has s bits.cycle_valid then double_to_beat_time c.cycle_start_music else pos 0;
          loop_end_beats =
              if has s bits.cycle_valid then double_to_beat_time c.cycle_end_music else pos 0;
          loop_start_seconds = pos 0;
          loop_end_seconds = pos 0;
          tsig_num = if has s bits.time_sig_valid then c.time_sig_numerator else pos 4;
          tsig_denom = if has s bits.time_sig_valid then c.time_sig_denominator else pos 4;
          bar_start =
              if has s bits.bar_position_valid
              then to_int64 (mul c.bar_position_music beattime_factor)
              else pos 0;
          bar_number = pos 0;
        },
        c.project_time_samples,
      )
