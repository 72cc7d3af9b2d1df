-- ===== src/Standalone/Ports/Resolved.antt =====
-- The ports that a saved selection stands for.
use wrac_plugin_template.Prelude.{
  ℕ, ◌+◌, Bool, true, false, not, ◌&&◌, List, [], ◌∷◌, Option, none, some, length, length-append,
  ◌≡◌, refl, inl, inr, arith, All, All-append, Bool-cases,
}
use wrac_plugin_template.Prelude.Text.{
  Text, is_empty, same, same_refl, has, AreDistinct, AreDistinct-snoc,
}
use wrac_plugin_template.Standalone.Ports.{
  MidiPort, SavedPort, Selection, port_by, or_else, untaken_port, port_with_id, unless_present,
  add_port, saved_id, rest_of, port_of, resolve_loop, resolve_saved, ids_of, saved_ids_count,
}

abbrev pub IsListed : List MidiPort → Text → Type 0
IsListed ports id = has (ids_of ports) id ≡ true

-- A port of the list that is not taken.
abbrev pub IsFree : List MidiPort → List Text → Option MidiPort → Type 0
IsFree ports taken none = Unit {0}
IsFree ports taken (some p) = (has taken p.id ≡ false) × IsListed ports p.id

IsListed-later :
    (port : MidiPort) (ports : List MidiPort) (id : Text)
    → IsListed ports id
    → IsListed (port ∷ ports) id
unfolding has
IsListed-later port ports id h = ground (arith, h)

IsFree-later :
    (port : MidiPort) (ports : List MidiPort) (taken : List Text) (o : Option MidiPort)
    → IsFree ports taken o
    → IsFree (port ∷ ports) taken o
IsFree-later port ports taken none f = tt
IsFree-later port ports taken (some p) f = (f.0, IsListed-later port ports p.id f.1)

IsListed-first : (port : MidiPort) (ports : List MidiPort) → IsListed (port ∷ ports) port.id
unfolding has
IsListed-first port ports = rw (same_refl port.id) refl

port_by-IsFree :
    (field : MidiPort → Text) (reference : Text) (taken : List Text) (ports : List MidiPort)
    → IsFree ports taken (port_by field reference taken ports)
unfolding port_by
port_by-IsFree field reference taken [] = tt
port_by-IsFree field reference taken (port ∷ ports) =
    elim (Bool-cases
      (not (is_empty reference) && same (field port) reference && not (has taken port.id))) [
        | inl h ↦ rw h (ground (arith, h), IsListed-first port ports)
        | inr h ↦
            rw h (IsFree-later port ports taken _ (port_by-IsFree field reference taken ports))
      ]

or_else-IsFree :
    (ports : List MidiPort) (taken : List Text) (a b : Option MidiPort)
    → IsFree ports taken a
    → IsFree ports taken b
    → IsFree ports taken (or_else a b)
or_else-IsFree ports taken none b ha hb = hb
or_else-IsFree ports taken (some p) b ha hb = ha

pub untaken_port-IsFree :
    (ports : List MidiPort) (reference : Text) (taken : List Text)
    → IsFree ports taken (untaken_port ports reference taken)
unfolding untaken_port
untaken_port-IsFree ports reference taken =
    or_else-IsFree ports taken (port_by (λ p. p.id) reference taken ports)
      (or_else (port_by (λ p. p.legacy_name) reference taken ports)
        (port_by (λ p. p.name) reference taken ports))
      (port_by-IsFree (λ p. p.id) reference taken ports)
      (or_else-IsFree ports taken (port_by (λ p. p.legacy_name) reference taken ports)
        (port_by (λ p. p.name) reference taken ports)
        (port_by-IsFree (λ p. p.legacy_name) reference taken ports)
        (port_by-IsFree (λ p. p.name) reference taken ports))

abbrev IsKnown : List MidiPort → Option MidiPort → Type 0
IsKnown ports none = Unit {0}
IsKnown ports (some p) = IsListed ports p.id

IsKnown-later :
    (port : MidiPort) (ports : List MidiPort) (o : Option MidiPort)
    → IsKnown ports o
    → IsKnown (port ∷ ports) o
IsKnown-later port ports none k = tt
IsKnown-later port ports (some p) k = IsListed-later port ports p.id k

port_with_id-IsKnown : (ports : List MidiPort) (id : Text) → IsKnown ports (port_with_id ports id)
unfolding port_with_id
port_with_id-IsKnown [] id = tt
port_with_id-IsKnown (port ∷ ports) id = elim (Bool-cases (not (is_empty id) && same port.id id)) [
  | inl h ↦ rw h (IsListed-first port ports)
  | inr h ↦ rw h (IsKnown-later port ports _ (port_with_id-IsKnown ports id))
]

unless_present-IsFree :
    (ports : List MidiPort) (present : List Text) (o : Option MidiPort)
    → IsKnown ports o
    → IsFree ports present (unless_present present o)
unless_present-IsFree ports present none k = tt
unless_present-IsFree ports present (some p) k = elim (Bool-cases (has present p.id)) [
  | inl h ↦ rw h tt
  | inr h ↦ rw h (h, k)
]

port_of-IsFree :
    (c : Bool) (ports : List MidiPort) (id name : Text) (present : List Text)
    → IsFree ports present (port_of c ports id name present)
unfolding port_of
port_of-IsFree true ports id name present =
    or_else-IsFree ports present (unless_present present (port_with_id ports id))
      (untaken_port ports name present)
      (unless_present-IsFree ports present (port_with_id ports id) (port_with_id-IsKnown ports id))
      (untaken_port-IsFree ports name present)
port_of-IsFree false ports id name present = untaken_port-IsFree ports name present

-- A selection of ports that are there, each once.
pub record IsSelection (ports : List MidiPort) (s : Selection) : Type 0 where
  pub distinct : AreDistinct s.present_ids
  pub listed : All (IsListed ports) s.present_ids

add_port-IsSelection :
    (ports : List MidiPort) (o : Option MidiPort) (name : Text) (s : Selection)
    → IsSelection ports s
    → IsFree ports s.present_ids o
    → IsSelection ports (add_port o name s)
add_port-IsSelection ports none name s h f = record { distinct = h.distinct; listed = h.listed }
add_port-IsSelection ports (some p) name s h f = record {
  distinct = AreDistinct-snoc s.present_ids p.id h.distinct f.0;
  listed = All-append (IsListed ports) s.present_ids (p.id ∷ []) h.listed (f.1, tt);
}

resolve_loop-IsSelection :
    (c : Bool) (ports : List MidiPort) (names : List Text) (saved : List SavedPort) (s : Selection)
    → IsSelection ports s
    → IsSelection ports (resolve_loop c ports names saved s)
unfolding resolve_loop
resolve_loop-IsSelection c ports [] saved s h = h
resolve_loop-IsSelection c ports (name ∷ names) saved s h =
    resolve_loop-IsSelection c ports names (rest_of saved) _ (
      add_port-IsSelection ports (port_of c ports (saved_id saved) name s.present_ids) name s h
        (port_of-IsFree c ports (saved_id saved) name s.present_ids))

abbrev size : Selection → ℕ
size s = length s.present_ids + length s.absent_names

add_port-size :
    (o : Option MidiPort) (name : Text) (s : Selection) → size (add_port o name s) ≡ size s + 1
add_port-size none name s = omega (arith, length-append s.absent_names (name ∷ []))
add_port-size (some p) name s = omega (arith, length-append s.present_ids (p.id ∷ []))

resolve_loop-size :
    (c : Bool) (ports : List MidiPort) (names : List Text) (saved : List SavedPort) (s : Selection)
    → size (resolve_loop c ports names saved s) ≡ size s + length names
unfolding resolve_loop
resolve_loop-size c ports [] saved s = omega arith
resolve_loop-size c ports (name ∷ names) saved s = omega (
  arith,
  resolve_loop-size c ports names (rest_of saved)
      (add_port (port_of c ports (saved_id saved) name s.present_ids) name s),
  add_port-size (port_of c ports (saved_id saved) name s.present_ids) name s,
)

-- Whatever was saved, by whichever build, each saved name is answered by one port that is there or
-- is absent, and no port answers twice: a device is not opened two times for two devices of one name.
pub resolve_saved-IsSelection :
    (ports : List MidiPort) (names : List Text) (saved : List SavedPort)
    → IsSelection ports (resolve_saved ports names saved)
      × (length (resolve_saved ports names saved).present_ids
            + length (resolve_saved ports names saved).absent_names
          ≡ length names)
unfolding resolve_saved
resolve_saved-IsSelection ports names saved =
    let none_yet : Selection = record { present_ids = []; absent_names = [] } in
    (
      resolve_loop-IsSelection (saved_ids_count names saved) ports names saved none_yet
          (record { distinct = tt; listed = tt }),
      omega (arith, resolve_loop-size (saved_ids_count names saved) ports names saved none_yet),
    )
