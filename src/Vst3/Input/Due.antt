-- ===== src/Vst3/Input/Due.antt =====
-- How many events the plugin gets.
use wrac_plugin_template.Prelude.{
  inr, inl, length, Bool-cases, ◌≡◌, refl, ◌&&◌, if◌then◌else◌, ◌+◌, ◌≤◌, ℕ, Bool, true, false,
  List, [], ◌∷◌, ◌++◌, Option, none, some, arith,
}
use wrac_plugin_template.Prelude.Int.{to_u32, ℤ, is_negative, eq_ℤ}
use wrac_plugin_template.Prelude.Double.{Doubles}
use wrac_plugin_template.Vst3.ActiveNotes.{ActiveNote}
use wrac_plugin_template.Vst3.Input.{
  voice_of, other_data, other, expression_value, poly_pressure, sys_ex_data, off, on, process_body,
  VstInputBody, note_expression, ExpressionTypes, VstInput, InputState, push, process_note_on,
  first_key, process_poly_pressure, expression_of, process_expression, process_input_event,
  process_input_events,
}
use wrac_plugin_template.Vst3.Input.Playing.{plays, are_keyed, is_named, are_named, body-heard}

length-push : {A : Type 0} (xs : List A) (x : A) → length (xs ++ x ∷ []) ≡ length xs + 1
length-push [] x = refl
length-push (y ∷ ys) x = omega (arith, length-push ys x)

module _ (doubles : Doubles) (types : ExpressionTypes) where
  -- How many events the plugin gets at least: one for each event that the adapter knows, if the type
  -- of an expression is known.
  abbrev pub is_known : ℕ → doubles.Double → ℕ
  is_known type_id value = elim (expression_of doubles types type_id value) [
    | none ↦ 0
    | some x ↦ 1
  ]

  abbrev pub due : VstInputBody doubles types → ℕ
  due (on channel pitch tuning velocity id) = 1
  due (off channel pitch velocity id) = 1
  due (sys_ex_data bytes) = 1
  due other_data = 0
  due (poly_pressure channel pitch pressure id) = 1
  due (expression_value type_id id value) = is_known type_id value
  due other = 0

  abbrev pub all_due : List (Option (VstInput doubles types)) → ℕ
  all_due [] = 0
  all_due (none ∷ es) = all_due es
  all_due (some e ∷ es) = due e.body + all_due es

  first_key-keyed :
      (id : ℤ) (slots : List ActiveNote)
      → (plays (λ n. eq_ℤ n.note_id id) slots && are_keyed id slots) ≡ true
      → is_negative (first_key doubles types id slots) ≡ false
  unfolding first_key
  first_key-keyed id [] h = absurd (ground (arith, h))
  first_key-keyed id (i ∷ is) h = ground (arith, h, first_key-keyed id is)

  expression-due :
      (time : ℕ) (live : Bool) (type_id : ℕ) (id : ℤ) (value : doubles.Double)
      (is : List ActiveNote) (s : InputState doubles types)
      → length s.list.events
          + (if plays (λ n. eq_ℤ n.note_id id) is then is_known type_id value else 0)
        ≤ length (process_expression doubles types time live type_id id value is s).list.events
  unfolding process_expression
  expression-due time live type_id id value [] s = omega arith
  expression-due time live type_id id value (i ∷ is) s =
      elim (Bool-cases (i.used && eq_ℤ i.note.note_id id)) [
        | inr c ↦ rw (process_expression, c) (expression-due time live type_id id value is s)
        | inl c ↦
            rw (process_expression, c)
              (go (expression-due time live type_id id value is)
                (expression_of doubles types type_id value))
      ]
    where
      rest : InputState doubles types → InputState doubles types
      rest u = process_expression doubles types time live type_id id value is u

      go :
          ((u : InputState doubles types)
            → length u.list.events
                + (if plays (λ n. eq_ℤ n.note_id id) is then is_known type_id value else 0)
              ≤ length (rest u).list.events)
          → (o : Option (ℕ × doubles.Double))
          → length s.list.events + (elim o as (λ x. ℕ) [ none ↦ 0 | some x ↦ 1 ])
            ≤ length
                (rest (elim o as (λ x. InputState doubles types) [
                  | none ↦ s
                  | some x ↦
                      push doubles types time live
                        (note_expression id (some (voice_of doubles types i x.0 x.1)))
                        s
                ])).list.events
      go ih none = omega (arith, ih s)
      go ih (some x) =
          let s' =
            push doubles types time live
              (note_expression id (some (voice_of doubles types i x.0 x.1))) s in
          omega (arith, ih s', length-push s.list.events)

  body-due :
      (poly tuned : Bool) (time : ℕ) (live : Bool) (b : VstInputBody doubles types)
      (s : InputState doubles types)
      → is_named doubles types s.active_notes b ≡ true
      → length s.list.events + due b
        ≤ length (process_body doubles types poly tuned time live b s).list.events
  unfolding process_note_on process_poly_pressure
  body-due poly tuned time live (on channel pitch tuning velocity id) s h =
      grind (arith, length-push)
  body-due poly tuned time live (off channel pitch velocity id) s h = omega (arith, length-push)
  body-due poly tuned time live (sys_ex_data bytes) s h = omega (arith, length-push)
  body-due poly tuned time live other_data s h = omega arith
  body-due poly tuned time live (poly_pressure channel pitch pressure id) s h =
      grind (arith, length-push, first_key-keyed id s.active_notes h)
  body-due poly tuned time live (expression_value type_id id value) s h =
      rw h at (expression-due time live type_id id value s.active_notes s)
  body-due poly tuned time live other s h = omega arith

  pub events-due :
      (poly tuned : Bool) (es : List (Option (VstInput doubles types)))
      (s : InputState doubles types)
      → are_named doubles types es s.active_notes ≡ true
      → length s.list.events + all_due es
        ≤ length (process_input_events doubles types poly tuned es s).list.events
  unfolding process_input_events process_input_event
  events-due poly tuned [] s h = omega arith
  events-due poly tuned (none ∷ es) s h = events-due poly tuned es s h
  events-due poly tuned (some e ∷ es) s h =
      let time = to_u32 e.sample_offset in
      let rest =
        events-due poly tuned es (process_body doubles types poly tuned time e.is_live e.body s)
          (rw (body-heard doubles types poly tuned time e.is_live e.body s) (ground (arith, h))) in
      omega (arith, rest, body-due poly tuned time e.is_live e.body s (ground (arith, h)))
