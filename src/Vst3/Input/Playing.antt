-- ===== src/Vst3/Input/Playing.antt =====
-- The notes that play, and the events of the host that name them.
use wrac_plugin_template.Prelude.{
  inr, inl, Bool-cases, Option-cases, ◌≡◌, refl, ◌∙◌, ◌||◌, ◌&&◌, not, ℕ, Bool, true, false, List,
  [], ◌∷◌, Option, none, some, arith,
}
use wrac_plugin_template.Prelude.Int.{ℤ, pos, negsuc, is_negative, eq_ℤ, eq_ℤ_refl}
use wrac_plugin_template.Prelude.Double.{Doubles}
use wrac_plugin_template.Vst3.ActiveNotes.{Note, ActiveNote, add_to_active_notes}
use wrac_plugin_template.Vst3.Input.{
  other_data, other, expression_value, poly_pressure, sys_ex_data, off, on, process_body,
  VstInputBody, ExpressionTypes, VstInput, InputState, note_of, process_note_on,
  process_poly_pressure, expression_of, process_expression,
}

abbrev pub eq_Note : Note → Note → Bool
eq_Note a b =
    eq_ℤ a.note_id b.note_id
    && eq_ℤ a.port_index b.port_index
    && eq_ℤ a.channel b.channel
    && eq_ℤ a.key b.key

pub eq_ℤ_sym : (a b : ℤ) → eq_ℤ a b ≡ true → eq_ℤ b a ≡ true
eq_ℤ_sym (pos n) (pos m) h = ground arith
eq_ℤ_sym (negsuc n) (negsuc m) h = ground arith
eq_ℤ_sym (pos n) (negsuc m) h = h
eq_ℤ_sym (negsuc n) (pos m) h = h

pub eq_Note_refl : (a : Note) → eq_Note a a ≡ true
eq_Note_refl a =
    ground
      (arith, eq_ℤ_refl a.note_id, eq_ℤ_refl a.port_index, eq_ℤ_refl a.channel, eq_ℤ_refl a.key)

abbrev pub plays : (Note → Bool) → List ActiveNote → Bool
plays test [] = false
plays test (i ∷ is) = (i.used && test i.note) || plays test is

pub plays-add :
    (test : Note → Bool) (n : Note) (slots : List ActiveNote)
    → plays test (add_to_active_notes n slots) ≡ (test n || plays test slots)
unfolding add_to_active_notes
plays-add test n [] = ground arith
plays-add test n (i ∷ is) = ground (arith, plays-add test n is)

-- Whether the notes of an id that play have keys.
abbrev pub are_keyed : ℤ → List ActiveNote → Bool
are_keyed id [] = true
are_keyed id (i ∷ is) =
    (not (i.used && eq_ℤ i.note.note_id id) || not (is_negative i.note.key)) && are_keyed id is

module _ (doubles : Doubles) (types : ExpressionTypes) where
  -- A poly pressure is of a note that plays, and the notes of its id have keys; an expression is of a
  -- note that plays.
  abbrev pub is_named : List ActiveNote → VstInputBody doubles types → Bool
  is_named slots (poly_pressure channel pitch pressure id) =
      plays (λ n. eq_ℤ n.note_id id) slots && are_keyed id slots
  is_named slots (expression_value type_id id value) = plays (λ n. eq_ℤ n.note_id id) slots
  is_named slots b = true

  -- The notes that play after an event.
  abbrev pub heard : VstInputBody doubles types → List ActiveNote → List ActiveNote
  heard (on channel pitch tuning velocity id) slots =
      add_to_active_notes (note_of doubles types channel pitch id) slots
  heard b slots = slots

  -- Each event of a sequence names notes that play when it comes.
  abbrev pub are_named : List (Option (VstInput doubles types)) → List ActiveNote → Bool
  are_named [] slots = true
  are_named (none ∷ es) slots = are_named es slots
  are_named (some e ∷ es) slots = is_named slots e.body && are_named es (heard e.body slots)

  expression-heard :
      (time : ℕ) (live : Bool) (type_id : ℕ) (id : ℤ) (value : doubles.Double)
      (is : List ActiveNote) (s : InputState doubles types)
      → (process_expression doubles types time live type_id id value is s).active_notes
        ≡ s.active_notes
  unfolding process_expression
  expression-heard time live type_id id value [] s = refl
  expression-heard time live type_id id value (i ∷ is) s =
      expression-heard time live type_id id value is _
      ∙ elim (Bool-cases (i.used && eq_ℤ i.note.note_id id)) [
        | inr c ↦ rw c refl
        | inl c ↦ elim (Option-cases (expression_of doubles types type_id value)) [
          | inl d ↦ rw (c, d) refl
          | inr (x, d) ↦ rw (c, d) refl
        ]
      ]

  pub body-heard :
      (poly tuned : Bool) (time : ℕ) (live : Bool) (b : VstInputBody doubles types)
      (s : InputState doubles types)
      → (process_body doubles types poly tuned time live b s).active_notes ≡ heard b s.active_notes
  unfolding process_note_on process_poly_pressure
  body-heard poly tuned time live (on channel pitch tuning velocity id) s = ground arith
  body-heard poly tuned time live (off channel pitch velocity id) s = refl
  body-heard poly tuned time live (sys_ex_data bytes) s = refl
  body-heard poly tuned time live other_data s = refl
  body-heard poly tuned time live (poly_pressure channel pitch pressure id) s = ground arith
  body-heard poly tuned time live (expression_value type_id id value) s =
      expression-heard time live type_id id value s.active_notes s
  body-heard poly tuned time live other s = refl
