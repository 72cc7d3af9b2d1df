-- ===== src/Standalone/Ports.antt =====
-- The choice of MIDI ports: `findMidiPort` (standalone_audio.cpp), and `portWithId`, `untakenPort`,
-- `savedIdsCount`, `resolveSaved`, `setChosenMidiPorts` and `openMidiPorts`
-- (standalone_host_midi.cpp) for one direction. The lists of ports are what a backend lists.
pub mod Resolved
pub mod Chosen
mod Tests
use wrac_plugin_template.Prelude.{
  ℕ, Bool, true, false, not, ◌&&◌, ◌||◌, if◌then◌else◌, List, [], ◌∷◌, ◌++◌, Option, none, some,
}
use wrac_plugin_template.Prelude.Text.{Text, is_empty, same, has}

pub record MidiPort : Type 0 where
  pub id : Text
  pub name : Text
  pub legacy_name : Text

pub record SavedPort : Type 0 where
  pub id : Text
  pub name : Text

-- The first port with a field of this value that is not taken.
pub port_by : (MidiPort → Text) → Text → List Text → List MidiPort → Option MidiPort
port_by field reference taken [] = none
port_by field reference taken (port ∷ ports) =
    if not (is_empty reference) && same (field port) reference && not (has taken port.id)
    then some port
    else port_by field reference taken ports

abbrev pub or_else : Option MidiPort → Option MidiPort → Option MidiPort
or_else none later = later
or_else (some port) later = some port

-- By the id, then the legacy name, then the name.
pub untaken_port : List MidiPort → Text → List Text → Option MidiPort
untaken_port ports reference taken = or_else (port_by (λ p. p.id) reference taken ports) (
    or_else (port_by (λ p. p.legacy_name) reference taken ports)
      (port_by (λ p. p.name) reference taken ports))

pub find_midi_port : List MidiPort → Text → Option MidiPort
unfolding untaken_port
find_midi_port ports reference =
    if is_empty reference then none else untaken_port ports reference []

pub port_with_id : List MidiPort → Text → Option MidiPort
port_with_id [] id = none
port_with_id (port ∷ ports) id =
    if not (is_empty id) && same port.id id then some port else port_with_id ports id

pub saved_ids_count : List Text → List SavedPort → Bool
saved_ids_count [] [] = true
saved_ids_count [] (s ∷ saved) = false
saved_ids_count (n ∷ names) [] = false
saved_ids_count (n ∷ names) (s ∷ saved) = same s.name n && saved_ids_count names saved

-- The port that a saved id stands for, unless it was found before.
abbrev pub unless_present : List Text → Option MidiPort → Option MidiPort
unless_present present none = none
unless_present present (some port) = if has present port.id then none else some port

pub record Selection : Type 0 where
  pub present_ids : List Text
  pub absent_names : List Text

abbrev pub add_port : Option MidiPort → Text → Selection → Selection
add_port (some port) name s = record s { present_ids = s.present_ids ++ port.id ∷ [] }
add_port none name s = record s { absent_names = s.absent_names ++ name ∷ [] }

abbrev pub saved_id : List SavedPort → Text
saved_id [] = []
saved_id (s ∷ saved) = s.id

abbrev pub rest_of : List SavedPort → List SavedPort
rest_of [] = []
rest_of (s ∷ saved) = saved

-- One round of `resolve_saved`.
pub port_of : Bool → List MidiPort → Text → Text → List Text → Option MidiPort
unfolding port_with_id untaken_port
port_of ids_count ports id name present =
    or_else (if ids_count then unless_present present (port_with_id ports id) else none)
      (untaken_port ports name present)

pub resolve_loop : Bool → List MidiPort → List Text → List SavedPort → Selection → Selection
resolve_loop ids_count ports [] saved s = s
resolve_loop ids_count ports (name ∷ names) saved s =
    resolve_loop ids_count ports names (rest_of saved)
      (add_port (port_of ids_count ports (saved_id saved) name s.present_ids) name s)

pub resolve_saved : List MidiPort → List Text → List SavedPort → Selection
unfolding resolve_loop saved_ids_count
resolve_saved ports names saved =
    resolve_loop (saved_ids_count names saved) ports names saved
      (record { present_ids = []; absent_names = [] })

-- The id that was saved last with a name.
pub old_id : Text → List SavedPort → Text → Text
old_id reference [] id = id
old_id reference (old ∷ before) id =
    old_id reference before (if same old.name reference then old.id else id)

abbrev pub chosen : List SavedPort → Text → Option MidiPort → SavedPort
chosen before reference (some port) = record {
  id = port.id;
  name = if is_empty port.legacy_name then port.name else port.legacy_name;
}
chosen before reference none = record { id = old_id reference before []; name = reference }

-- The names and the ids that are saved for a choice.
pub chosen_ports : List MidiPort → List SavedPort → List Text → List SavedPort
unfolding old_id port_with_id
chosen_ports ports before [] = []
chosen_ports ports before (reference ∷ references) =
    chosen before reference (port_with_id ports reference) ∷ chosen_ports ports before references

abbrev pub names_of : List SavedPort → List Text
names_of [] = []
names_of (s ∷ saved) = s.name ∷ names_of saved

-- What is saved: the names and, beside them, the ids.
pub set_chosen_midi_ports : List MidiPort → List SavedPort → List Text → List Text × List SavedPort
unfolding chosen_ports
set_chosen_midi_ports ports before references =
    let saved = chosen_ports ports before references in (names_of saved, saved)

abbrev pub found_ids : List MidiPort → List Text → List Text
found_ids ports [] = []
found_ids ports (reference ∷ references) = elim (find_midi_port ports reference) [
  | some port ↦ port.id ∷ found_ids ports references
  | none ↦ found_ids ports references
]

abbrev pub ids_of : List MidiPort → List Text
ids_of [] = []
ids_of (port ∷ ports) = port.id ∷ ids_of ports

-- The ids that `openMidiPorts` asks the backend to open.
pub wanted_inputs : List MidiPort → List Text → Bool → List Text
wanted_inputs available references bind_all =
    if bind_all then ids_of available else found_ids available references
