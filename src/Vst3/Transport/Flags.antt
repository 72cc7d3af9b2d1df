-- ===== src/Vst3/Transport/Flags.antt =====
-- Each flag of the transport says what it should.
use wrac_plugin_template.Prelude.{
  agree, for_Bool, for_Bool-at, ◌&&◌, bit_or, ◌≡◌, refl, arith, ◌||◌, ℕ, Bool, true, if◌then◌else◌,
}
use wrac_plugin_template.Vst3.Transport.{StateBits, TransportFlags, has, when, flags_of}

-- The flags of CLAP are these bits.
pub record AreBits (flags : TransportFlags) : Type 0 where
  pub has_tempo : flags.has_tempo ≡ 1
  pub has_beats_timeline : flags.has_beats_timeline ≡ 2
  pub has_seconds_timeline : flags.has_seconds_timeline ≡ 4
  pub has_time_signature : flags.has_time_signature ≡ 8
  pub is_playing : flags.is_playing ≡ 16
  pub is_recording : flags.is_recording ≡ 32
  pub is_loop_active : flags.is_loop_active ≡ 64

abbrev combined : (p r c t b s m : Bool) → ℕ
combined p r c t b s m =
    let timed =
      bit_or
        (bit_or
          (bit_or (bit_or (bit_or (bit_or (when p 16) (when r 32)) (when c 64)) (when t 1))
            (when b 2))
          (when s 8))
        4 in
    if m then bit_or timed 2 else timed

abbrev combined_tells : (p r c t b s m : Bool) → Bool
combined_tells p r c t b s m =
    let f = combined p r c t b s m in
    agree (has f 16) p
    && (agree (has f 32) r
        && (agree (has f 64) c
            && (agree (has f 1) t && (agree (has f 2) (b || m) && (has f 4 && agree (has f 8) s)))))

-- For all values of the last Booleans.
abbrev all_m : (p r c t b s : Bool) → Bool
all_m p r c t b s = for_Bool (combined_tells p r c t b s)

abbrev all_s : (p r c t b : Bool) → Bool
all_s p r c t b = for_Bool (all_m p r c t b)

abbrev all_b : (p r c t : Bool) → Bool
all_b p r c t = for_Bool (all_s p r c t)

abbrev all_t : (p r c : Bool) → Bool
all_t p r c = for_Bool (all_b p r c)

abbrev all_c : (p r : Bool) → Bool
all_c p r = for_Bool (all_t p r)

abbrev all_r : (p : Bool) → Bool
all_r p = for_Bool (all_c p)

combined_tells_all : for_Bool all_r ≡ true
combined_tells_all = refl

combined_tells_at : (p r c t b s m : Bool) → combined_tells p r c t b s m ≡ true
combined_tells_at p r c t b s m =
    let with_p = for_Bool-at all_r p combined_tells_all in
    let with_r = for_Bool-at (all_c p) r with_p in
    let with_c = for_Bool-at (all_t p r) c with_r in
    let with_t = for_Bool-at (all_b p r c) t with_c in
    let with_b = for_Bool-at (all_s p r c t) b with_t in
    for_Bool-at (combined_tells p r c t b s) m (for_Bool-at (all_m p r c t b) s with_b)

parts : (a b : Bool) → (a && b) ≡ true → (a ≡ true) × (b ≡ true)
parts a b h = ground arith

agree→≡ : (a b : Bool) → agree a b ≡ true → a ≡ b
agree→≡ a b h = ground arith

-- The transport plays, records, loops, has a tempo and has a time signature exactly if the state of
-- the host says so; it has beats if the state has a bar position or a musical position, and it
-- always has seconds. The flags of CLAP are the bits that its headers give.
pub flags_of_lem :
    (bits : StateBits) (flags : TransportFlags) (state : ℕ)
    → AreBits flags
    → let f = flags_of bits flags state in
      (has f flags.is_playing ≡ has state bits.playing)
      × (has f flags.is_recording ≡ has state bits.recording)
      × (has f flags.is_loop_active ≡ has state bits.cycle_active)
      × (has f flags.has_tempo ≡ has state bits.tempo_valid)
      × (has f flags.has_beats_timeline
          ≡ (has state bits.bar_position_valid || has state bits.project_time_music_valid))
      × (has f flags.has_seconds_timeline ≡ true)
      × (has f flags.has_time_signature ≡ has state bits.time_sig_valid)
unfolding flags_of
flags_of_lem bits flags state a =
    rw
      (
        a.has_tempo, a.has_beats_timeline, a.has_seconds_timeline, a.has_time_signature,
        a.is_playing, a.is_recording, a.is_loop_active,
      )
      (told (has state bits.playing) (has state bits.recording) (has state bits.cycle_active)
        (has state bits.tempo_valid) (has state bits.bar_position_valid)
        (has state bits.time_sig_valid) (has state bits.project_time_music_valid))
  where
    told :
        (p r c t b s m : Bool)
        → let f = combined p r c t b s m in
          (has f 16 ≡ p)
          × (has f 32 ≡ r)
          × (has f 64 ≡ c)
          × (has f 1 ≡ t)
          × (has f 2 ≡ (b || m))
          × (has f 4 ≡ true)
          × (has f 8 ≡ s)
    told p r c t b s m =
        let f = combined p r c t b s m in
        let all = combined_tells_at p r c t b s m in
        let (a1, rest1) = parts _ _ all in
        let (a2, rest2) = parts _ _ rest1 in
        let (a3, rest3) = parts _ _ rest2 in
        let (a4, rest4) = parts _ _ rest3 in
        let (a5, rest5) = parts _ _ rest4 in
        let (a6, a7) = parts _ _ rest5 in
        (
          agree→≡ _ _ a1,
          agree→≡ _ _ a2,
          agree→≡ _ _ a3,
          agree→≡ _ _ a4,
          agree→≡ _ _ a5,
          a6,
          agree→≡ _ _ a7,
        )
