-- ===== src/Midi/SysEx7/Words.antt =====
-- The fields of a packet are read back from its words.
use wrac_plugin_template.Prelude.{
  ℕ, ◌+◌, ◌*◌, ◌/◌, ◌^◌, ◌<◌, ◌≡◌, refl, ap₂, ◌∙◌, List, [], ◌∷◌, arith, length, All,
}
use wrac_plugin_template.Prelude.Bits.{bit_or-add, bit_and-mask}
use wrac_plugin_template.Midi.SysEx7.{packet, status_nibble_of, num_bytes_of, bytes_of}

module _ (status chunk a b c d e f : ℕ) where
  abbrev six : List ℕ
  six = a ∷ b ∷ c ∷ d ∷ e ∷ f ∷ []

  -- A field each: four bits of status and of length, and six bytes.
  pub record InRange : Type 0 where
    pub status_lt : status < 16
    pub chunk_lt : chunk < 16
    pub a_lt : a < 256
    pub b_lt : b < 256
    pub c_lt : c < 256
    pub d_lt : d < 256
    pub e_lt : e < 256
    pub f_lt : f < 256

  word0_sum :
      InRange
      → (packet status chunk six).word0
        ≡ 3 * 2 ^ 28 + status * 2 ^ 20 + chunk * 2 ^ 16 + a * 2 ^ 8 + b
  unfolding packet
  word0_sum h =
      rw
        (
          bit_or-add 28 (3 * 2 ^ 28) (0 * 2 ^ 24) (omega arith) (omega arith),
          bit_or-add 28 (3 * 2 ^ 28 + 0 * 2 ^ 24) (status * 2 ^ 20) (omega arith)
              (omega (arith, h.status_lt)),
          bit_or-add 20 (3 * 2 ^ 28 + 0 * 2 ^ 24 + status * 2 ^ 20) (chunk * 2 ^ 16) (omega arith)
              (omega (arith, h.chunk_lt)),
          bit_or-add 16 (3 * 2 ^ 28 + 0 * 2 ^ 24 + status * 2 ^ 20 + chunk * 2 ^ 16) (a * 2 ^ 8)
              (omega arith) (omega (arith, h.a_lt)),
          bit_or-add 8 (3 * 2 ^ 28 + 0 * 2 ^ 24 + status * 2 ^ 20 + chunk * 2 ^ 16 + a * 2 ^ 8) b
              (omega arith) (omega (arith, h.b_lt)),
        )
        (omega arith)

  word1_sum : InRange → (packet status chunk six).word1 ≡ c * 2 ^ 24 + d * 2 ^ 16 + e * 2 ^ 8 + f
  unfolding packet
  word1_sum h =
      rw
        (
          bit_or-add 24 (c * 2 ^ 24) (d * 2 ^ 16) (omega arith) (omega (arith, h.d_lt)),
          bit_or-add 16 (c * 2 ^ 24 + d * 2 ^ 16) (e * 2 ^ 8) (omega arith) (omega (arith, h.e_lt)),
          bit_or-add 8 (c * 2 ^ 24 + d * 2 ^ 16 + e * 2 ^ 8) f (omega arith)
              (omega (arith, h.f_lt)),
        )
        (omega arith)

  -- Both words are 32 bits wide, and the type nibble is that of a SysEx7 packet.
  pub packet_words :
      InRange
      → let q = packet status chunk six in
        (q.word0 < 2 ^ 32) × (q.word1 < 2 ^ 32) × (q.word0 / 2 ^ 28 ≡ 3)
  packet_words h = omega (arith, h, word0_sum h, word1_sum h)

  pub packet_fields :
      InRange
      → let q = packet status chunk six in
        (status_nibble_of q.word0 ≡ status)
        × (num_bytes_of q.word0 ≡ chunk)
        × (bytes_of q.word0 q.word1 ≡ six)
  packet_fields h = (
    bit_and-mask 4 _ ∙ omega (arith, h, word0_sum h),
    bit_and-mask 4 _ ∙ omega (arith, h, word0_sum h),
    ap₂ ◌∷◌ (bit_and-mask 8 _ ∙ omega (arith, h, word0_sum h)) (
        ap₂ ◌∷◌ (bit_and-mask 8 _ ∙ omega (arith, h, word0_sum h)) (
          ap₂ ◌∷◌ (bit_and-mask 8 _ ∙ omega (arith, h, word1_sum h)) (
            ap₂ ◌∷◌ (bit_and-mask 8 _ ∙ omega (arith, h, word1_sum h)) (
              ap₂ ◌∷◌ (bit_and-mask 8 _ ∙ omega (arith, h, word1_sum h))
                (ap₂ ◌∷◌ (bit_and-mask 8 _ ∙ omega (arith, h, word1_sum h)) refl))))),
  )

-- The same for any list of six bytes.
pub list_fields :
    (status chunk : ℕ) (b : List ℕ)
    → status < 16
    → chunk < 16
    → length b ≡ 6
    → All (λ x. x < 256) b
    → let q = packet status chunk b in
      (status_nibble_of q.word0 ≡ status)
      × (num_bytes_of q.word0 ≡ chunk)
      × (bytes_of q.word0 q.word1 ≡ b)
list_fields status chunk (a ∷ b ∷ c ∷ d ∷ e ∷ f ∷ []) p q l h =
    packet_fields status chunk a b c d e f (omega arith)
list_fields status chunk [] p q l h = absurd (omega arith)
list_fields status chunk (a ∷ []) p q l h = absurd (omega arith)
list_fields status chunk (a ∷ b ∷ []) p q l h = absurd (omega arith)
list_fields status chunk (a ∷ b ∷ c ∷ []) p q l h = absurd (omega arith)
list_fields status chunk (a ∷ b ∷ c ∷ d ∷ []) p q l h = absurd (omega arith)
list_fields status chunk (a ∷ b ∷ c ∷ d ∷ e ∷ []) p q l h = absurd (omega arith)
list_fields status chunk (a ∷ b ∷ c ∷ d ∷ e ∷ f ∷ g ∷ r) p q l h = absurd (omega arith)
