-- ===== src/Vst3/Output.antt =====
-- The events that the adapter hands to the host: `createOutputEvent` and its companions,
-- `pushVstOutputEvent` and `outputBusIndex`.
use wrac_plugin_template.Prelude.{
  ◌||◌, ℕ, Bool, true, false, leb, List, [], ◌∷◌, ◌++◌, length, Option, none, some, get_elem?,
  if◌then◌else◌,
}
use wrac_plugin_template.Prelude.Int.{ℤ, minus_one, is_negative, to_ℕ}

-- The arithmetic of `float`.
pub record Floats : Type 1 where
  pub Float : Type 0
  pub lit : ℕ → Float
  pub div : Float → Float → Float
  pub lt : Float → Float → Bool

-- `clap_event_header_t` without its size: the flag is CLAP_EVENT_IS_LIVE.
pub record Header : Type 0 where
  pub time : ℕ
  pub space_id : ℕ
  pub type : ℕ
  pub is_live : Bool

module _ (floats : Floats) where
  open floats use {Float, lit, lt}

  -- What is in the union of `Vst::Event`; the length and the tuning of a note are 0. The bytes of a
  -- data event are given by their place in the buffer of the adapter.
  pub data Body : Type 0 where
    note_on : ℤ → ℤ → Float → ℤ → Body
    note_off : ℤ → ℤ → Float → ℤ → Body
    legacy_midi_cc_out : ℤ → ℕ → ℤ → ℤ → Body
    midi_sys_ex : ℕ → ℕ → Body

  pub record VstEvent : Type 0 where
    pub bus_index : ℤ
    pub sample_offset : ℕ
    pub is_live : Bool
    pub body : Body

  abbrev pub clamp_unit : Float → Float
  clamp_unit v = if lt v (lit 0) then lit 0 else if lt (lit 1) v then lit 1 else v

  abbrev pub create_output_event : Header → ℤ → Body → VstEvent
  create_output_event header bus_index body = record {
    bus_index = bus_index;
    sample_offset = header.time;
    is_live = header.is_live;
    body = body;
  }

  abbrev pub create_legacy_midi_output_event : Header → ℤ → ℤ → ℕ → ℤ → ℤ → VstEvent
  create_legacy_midi_output_event header bus channel control_number value value2 =
      create_output_event header bus (legacy_midi_cc_out channel control_number value value2)

  abbrev pub create_note_on_output_event : Header → ℤ → ℤ → ℤ → Float → ℤ → VstEvent
  create_note_on_output_event header bus channel key velocity note_id =
      create_output_event header bus (note_on channel key (clamp_unit velocity) note_id)

  abbrev pub create_note_off_output_event : Header → ℤ → ℤ → ℤ → Float → ℤ → VstEvent
  create_note_off_output_event header bus channel key velocity note_id =
      create_output_event header bus (note_off channel key (clamp_unit velocity) note_id)

abbrev pub is_midi_data_byte : ℕ → Bool
is_midi_data_byte value = leb value 0x7f

-- `none` is -1, for a port without a bus; so is a bus that is negative in the table.
abbrev pub output_bus_index : List ℤ → ℤ → ℤ
output_bus_index bus_by_port port_index =
    if is_negative port_index || leb (length bus_by_port) (to_ℕ port_index)
    then minus_one
    else elim (get_elem? bus_by_port (to_ℕ port_index)) [ none ↦ minus_one | some bus ↦ bus ]

module _ (floats : Floats) (add_event : List (VstEvent floats) → VstEvent floats → Bool) where
  -- The queue of the host holds a list; `add_event` says whether `addEvent` takes one more. `none` is
  -- a null `_vstdata` or a null queue.
  unfoldable pub push_vst_output_event :
      VstEvent floats → Option (List (VstEvent floats)) → Bool × Option (List (VstEvent floats))
  push_vst_output_event event none = (false, none)
  push_vst_output_event event (some held) =
      if add_event held event then (true, some (held ++ event ∷ [])) else (false, some held)
