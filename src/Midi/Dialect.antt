-- ===== src/Midi/Dialect.antt =====
-- `chooseInputDialect`. The four dialect bits of CLAP are parameters.
use wrac_plugin_template.Prelude.{
  ℕ, zero, suc, ◌||◌, not, ==_refl, bit_and, ◌==◌, List, [], ◌∷◌, ◌≡◌, Bool, true, false, arith,
  if◌then◌else◌,
}
use wrac_plugin_template.Prelude.Bits.{zero-bit_and}

pub record Dialects : Type 0 where
  pub clap : ℕ
  pub midi : ℕ
  pub midi_mpe : ℕ
  pub midi2 : ℕ

abbrev pub offers : ℕ → ℕ → Bool
offers supported dialect = if bit_and supported dialect == 0 then false else true

-- The first of the list that is offered, or else `preferred`.
unfoldable pub first_offered : ℕ → ℕ → List ℕ → ℕ
first_offered preferred supported [] = preferred
first_offered preferred supported (dialect ∷ rest) =
    if offers supported dialect then dialect else first_offered preferred supported rest

module _ (d : Dialects) where
  unfoldable pub choose_input_dialect : ℕ → ℕ → ℕ
  unfolding first_offered
  choose_input_dialect preferred supported =
      if supported == 0
      then preferred
      else if offers supported preferred
      then preferred
      else first_offered preferred supported (d.clap ∷ d.midi ∷ d.midi_mpe ∷ d.midi2 ∷ [])

  abbrev pub offers_known : ℕ → Bool
  offers_known supported =
      offers supported d.clap
      || offers supported d.midi
      || offers supported d.midi_mpe
      || offers supported d.midi2

  offers-zero : (dialect : ℕ) → offers 0 dialect ≡ false
  offers-zero dialect = rw (zero-bit_and dialect)

  -- The chosen dialect is offered exactly when the preferred one or one of the four is, and it is
  -- the preferred one if that is offered or none of the four is.
  pub choose_input_dialect_lem :
      (preferred supported : ℕ)
      → let chosen = choose_input_dialect preferred supported in
        (offers supported chosen ≡ offers supported preferred || offers_known supported)
        × ((if offers supported preferred || not (offers_known supported)
              then chosen == preferred
              else true)
            ≡ true)
  unfolding choose_input_dialect
  choose_input_dialect_lem preferred zero = ground (
    arith,
    offers-zero preferred,
    offers-zero d.clap,
    offers-zero d.midi,
    offers-zero d.midi_mpe,
    offers-zero d.midi2,
    ==_refl preferred,
  )
  choose_input_dialect_lem preferred (suc n) = ground (arith, ==_refl preferred)
