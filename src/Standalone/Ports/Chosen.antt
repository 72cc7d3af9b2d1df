-- ===== src/Standalone/Ports/Chosen.antt =====
-- A choice of ports that is saved and read again.
use wrac_plugin_template.Prelude.{
  true, false, List, [], ◌∷◌, ◌++◌, append-nil, append_assoc, Option, some, ◌≡◌, refl, sym, ap, ◌∙◌,
  inl, inr, arith, All, Bool-cases,
}
use wrac_plugin_template.Prelude.Text.{
  Text, is_empty, same, same_refl, same_comm, eq_of_same, has, has-snoc, AreDistinct,
}
use wrac_plugin_template.Standalone.Ports.{
  MidiPort, SavedPort, Selection, port_with_id, add_port, port_of, resolve_loop, resolve_saved,
  saved_ids_count, chosen, chosen_ports, names_of, set_chosen_midi_ports,
}
use wrac_plugin_template.Standalone.Ports.Resolved.{IsListed}

-- The id of a port that is there.
abbrev pub IsId : List MidiPort → Text → Type 0
IsId ports id = (is_empty id ≡ false) × IsListed ports id

found :
    (ports : List MidiPort) (id : Text)
    → IsId ports id
    → (p : MidiPort) × (port_with_id ports id ≡ some p) × (p.id ≡ id)
unfolding port_with_id has
found [] id h = cc
found (port ∷ ports) id h = elim (Bool-cases (same port.id id)) [
  | inl e ↦ (port, rw (e, h.0) refl, eq_of_same port.id id e)
  | inr e ↦
      let later = found ports id (h.0, ground (arith, e, h.1)) in
      (later.0, rw (e, h.0) later.1, later.2)
]

-- The ids always count for a choice that was just saved.
chosen-count : (saved : List SavedPort) → saved_ids_count (names_of saved) saved ≡ true
unfolding saved_ids_count
chosen-count [] = refl
chosen-count (s ∷ saved) = rw (same_refl s.name) (chosen-count saved)

abbrev AreNew : List Text → List Text → Type 0
AreNew present refs = All (λ r. has present r ≡ false) refs

AreNew-snoc :
    (present : List Text) (r : Text) (refs : List Text)
    → AreNew present refs
    → has refs r ≡ false
    → AreNew (present ++ r ∷ []) refs
unfolding has
AreNew-snoc present r [] n h = tt
AreNew-snoc present r (x ∷ refs) n h = (
  has-snoc present r x ∙ ground (arith, n.0, same_comm r x, h),
  AreNew-snoc present r refs n.1 (ground (arith, h)),
)

port_of-found :
    (ports : List MidiPort) (p : MidiPort) (id name : Text) (present : List Text)
    → port_with_id ports id ≡ some p
    → has present p.id ≡ false
    → port_of true ports id name present ≡ some p
unfolding port_of
port_of-found ports p id name present e n = rw (e, n) refl

resolve-chosen :
    (ports : List MidiPort) (before : List SavedPort) (refs : List Text) (s : Selection)
    → All (IsId ports) refs
    → AreDistinct refs
    → AreNew s.present_ids refs
    → resolve_loop true ports
        (names_of (chosen_ports ports before refs))
        (chosen_ports ports before refs)
        s
      ≡ record s { present_ids = s.present_ids ++ refs }
unfolding resolve_loop chosen_ports
resolve-chosen ports before [] s k d n =
    ap (λ (l : List Text). record s { present_ids = l }) (sym (append-nil s.present_ids))
resolve-chosen ports before (r ∷ refs) s k d n =
    let f = found ports r k.0 in
    let p = f.0 in
    let again : port_with_id ports p.id ≡ some p = ap (port_with_id ports) f.2 ∙ f.1 in
    let new : has s.present_ids p.id ≡ false = ap (has s.present_ids) f.2 ∙ n.0 in
    let name = (chosen before r (some p)).name in
    let s' : Selection = record s { present_ids = s.present_ids ++ p.id ∷ [] } in
    let tail = chosen_ports ports before refs in
    let added : add_port (port_of true ports p.id name s.present_ids) name s ≡ s' =
      ap (λ o. add_port o name s) (port_of-found ports p p.id name s.present_ids again new) in
    ap
      (λ (o : Option MidiPort).
        resolve_loop true ports (names_of (chosen before r o ∷ tail)) (chosen before r o ∷ tail) s)
      f.1
    ∙ ap (resolve_loop true ports (names_of tail) tail) added
    ∙ resolve-chosen ports before refs s' k.1 d.1
        (AreNew-snoc s.present_ids p.id refs n.1 (ap (has refs) f.2 ∙ d.0))
    ∙ ap (λ (l : List Text). record s { present_ids = l })
        (append_assoc s.present_ids (p.id ∷ []) refs
          ∙ ap (λ (x : Text). s.present_ids ++ x ∷ refs) f.2)

-- The ids of ports that are there, each chosen once, are read back as they were chosen, and no name
-- is absent, whatever was saved before.
pub resolve_saved-set_chosen :
    (ports : List MidiPort) (before : List SavedPort) (refs : List Text)
    → All (IsId ports) refs
    → AreDistinct refs
    → resolve_saved ports
        (set_chosen_midi_ports ports before refs).0
        (set_chosen_midi_ports ports before refs).1
      ≡ record { present_ids = refs; absent_names = [] }
unfolding resolve_saved set_chosen_midi_ports
resolve_saved-set_chosen ports before refs k d =
    rw (chosen-count (chosen_ports ports before refs)) (
      resolve-chosen ports before refs (record { present_ids = []; absent_names = [] }) k d
        (all_new refs))
  where
    all_new : (refs : List Text) → AreNew [] refs
    all_new [] = tt
    all_new (r ∷ refs) = (unfold has in refl, all_new refs)
