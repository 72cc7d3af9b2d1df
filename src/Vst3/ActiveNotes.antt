-- ===== src/Vst3/ActiveNotes.antt =====
-- `_activeNotes`, `addToActiveNotes` and `removeFromActiveNotes`: a table of slots that are used
-- again. What it stands for is the collection of the notes that play.
use mathlib.Core.List.{Perm}
use mathlib.Core.List.Perm
use wrac_plugin_template.Prelude.{
  inr, inl, ◌≤◌, Bool-cases, suc, max, Bool, true, false, ◌&&◌, List, [], ◌∷◌, ◌≡◌, refl, arith,
  length, if◌then◌else◌,
}
use wrac_plugin_template.Prelude.Int.{ℤ, eq_ℤ}

-- The fields of `clap_event_note` that tell a note.
pub record Note : Type 0 where
  pub note_id : ℤ
  pub port_index : ℤ
  pub channel : ℤ
  pub key : ℤ

pub record ActiveNote : Type 0 where
  pub used : Bool
  pub note : Note

unfoldable pub add_to_active_notes : Note → List ActiveNote → List ActiveNote
add_to_active_notes note [] = record { used = true; note = note } ∷ []
add_to_active_notes note (i ∷ is) =
    let rest = add_to_active_notes note is in
    if i.used then i ∷ rest else record { used = true; note = note } ∷ is

-- The three fields that are compared; the key is not.
abbrev pub same_voice : Note → Note → Bool
same_voice a b =
    eq_ℤ a.port_index b.port_index && eq_ℤ a.channel b.channel && eq_ℤ a.note_id b.note_id

pub remove_from_active_notes : Note → List ActiveNote → List ActiveNote
remove_from_active_notes note [] = []
remove_from_active_notes note (i ∷ is) =
    (if i.used && same_voice i.note note then record i { used = false } else i)
    ∷ remove_from_active_notes note is

-- The notes that play, in the order of their slots.
abbrev pub playing : List ActiveNote → List Note
playing [] = []
playing (i ∷ is) = if i.used then i.note ∷ playing is else playing is

abbrev pub without : Note → List Note → List Note
without note [] = []
without note (n ∷ ns) = if same_voice n note then without note ns else n ∷ without note ns

playing_le : (is : List ActiveNote) → length (playing is) ≤ length is
playing_le [] = omega arith
playing_le (i ∷ is) = ground (arith, playing_le is)

-- An added note plays beside those that did, and the table grows only if every slot was in use.
pub add_to_active_notes_lem :
    (note : Note) (slots : List ActiveNote)
    → Perm (playing (add_to_active_notes note slots)) (note ∷ playing slots)
      × (length (add_to_active_notes note slots)
          ≡ max (length slots) (suc (length (playing slots))))
unfolding add_to_active_notes
add_to_active_notes_lem note [] = (Perm.refl _, refl)
add_to_active_notes_lem note (i ∷ is) =
    let (held, size) = add_to_active_notes_lem note is in
    elim (Bool-cases i.used) [
      | inl e ↦
          rw e (Perm.trans (Perm.cons i.note held) (Perm.swap note i.note _), omega (arith, size))
      | inr e ↦ rw e (Perm.refl _, omega (arith, playing_le is))
    ]

-- Removing a note stops those with its port, channel and id, keeps the others, and keeps the slots.
pub remove_from_active_notes_lem :
    (note : Note) (slots : List ActiveNote)
    → (playing (remove_from_active_notes note slots) ≡ without note (playing slots))
      × (length (remove_from_active_notes note slots) ≡ length slots)
unfolding remove_from_active_notes
remove_from_active_notes_lem note [] = (refl, refl)
remove_from_active_notes_lem note (i ∷ is) = ground (arith, remove_from_active_notes_lem note is)
