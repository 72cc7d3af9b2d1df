-- ===== src/Standalone/Ports/Tests.antt =====
-- Two devices of one name, and a third.
use wrac_plugin_template.Prelude.{◌+◌, false, List, [], ◌∷◌, length, ◌≡◌, refl}
use wrac_plugin_template.Prelude.Text.{Text, same, has}
use wrac_plugin_template.Standalone.Ports.{
  MidiPort, port_by, port_with_id, port_of, untaken_port, find_midi_port, resolve_loop,
  resolve_saved, old_id, set_chosen_midi_ports, wanted_inputs,
}
use wrac_plugin_template.Standalone.Ports.Resolved.{IsSelection, resolve_saved-IsSelection}
use wrac_plugin_template.Standalone.Ports.Chosen.{resolve_saved-set_chosen}

abbrev ports : List MidiPort
ports =
    record { id = 1 ∷ []; name = 7 ∷ []; legacy_name = [] }
    ∷ record { id = 2 ∷ []; name = 7 ∷ []; legacy_name = [] }
    ∷ record { id = 3 ∷ []; name = 8 ∷ []; legacy_name = 9 ∷ [] }
    ∷ []

abbrev names : List Text
names = (7 ∷ []) ∷ (5 ∷ []) ∷ (7 ∷ []) ∷ (7 ∷ []) ∷ (9 ∷ []) ∷ []

-- By names alone: each device of the name once, then the name is absent.
resolve_saved-names : resolve_saved ports names [] ≡ record {
  present_ids = (1 ∷ []) ∷ (2 ∷ []) ∷ (3 ∷ []) ∷ [];
  absent_names = (5 ∷ []) ∷ (7 ∷ []) ∷ [];
}
unfolding resolve_saved resolve_loop port_of port_by has same
resolve_saved-names = refl

-- A device that is gone keeps its id.
set_chosen_midi_ports-absent :
    set_chosen_midi_ports ports
      (record { id = 6 ∷ []; name = 5 ∷ [] } ∷ [])
      ((3 ∷ []) ∷ (5 ∷ []) ∷ [])
    ≡ (
      (9 ∷ []) ∷ (5 ∷ []) ∷ [],
      record { id = 3 ∷ []; name = 9 ∷ [] } ∷ record { id = 6 ∷ []; name = 5 ∷ [] } ∷ [],
    )
unfolding set_chosen_midi_ports port_with_id old_id same
set_chosen_midi_ports-absent = refl

wanted_inputs-found :
    wanted_inputs ports ((7 ∷ []) ∷ (5 ∷ []) ∷ (9 ∷ []) ∷ []) false ≡ (1 ∷ []) ∷ (3 ∷ []) ∷ []
unfolding wanted_inputs find_midi_port untaken_port port_by has same
wanted_inputs-found = refl

resolve_saved-IsSelection_example :
    IsSelection ports (resolve_saved ports names [])
    × (length (resolve_saved ports names []).present_ids
          + length (resolve_saved ports names []).absent_names
        ≡ length names)
resolve_saved-IsSelection_example = resolve_saved-IsSelection ports names []

resolve_saved-set_chosen_example :
    resolve_saved ports
      (set_chosen_midi_ports ports [] ((2 ∷ []) ∷ (1 ∷ []) ∷ [])).0
      (set_chosen_midi_ports ports [] ((2 ∷ []) ∷ (1 ∷ []) ∷ [])).1
    ≡ record { present_ids = (2 ∷ []) ∷ (1 ∷ []) ∷ []; absent_names = [] }
unfolding has same
resolve_saved-set_chosen_example =
    resolve_saved-set_chosen ports [] ((2 ∷ []) ∷ (1 ∷ []) ∷ []) ((refl, refl), ((refl, refl), tt))
      (refl, (refl, tt))
