-- ===== src/Vst3/Block.antt =====
-- `process` and `flush`: one block, from the host's data to what the plugin reads and from what the
-- plugin gives out to the host's queues.
pub mod Order
pub mod Ports
pub mod Sequence
mod Tests
use wrac_plugin_template.Prelude.{
  ◌||◌, ◌&&◌, ltb, ℕ, Bool, true, false, List, [], ◌∷◌, map, Option, none, some, if◌then◌else◌,
}
use wrac_plugin_template.Prelude.Int.{ℤ}
use wrac_plugin_template.Prelude.Double.{Doubles}
use wrac_plugin_template.Vst3.EventOrder.{
  EventList, cleared, sort_event_indices, input_events_size, input_events_get,
}
use wrac_plugin_template.Vst3.EventOrder.Stable.{read_all}
use wrac_plugin_template.Vst3.ActiveNotes.{ActiveNote}
use wrac_plugin_template.Vst3.Output.{Floats, VstEvent}
use wrac_plugin_template.Vst3.Midi1.{Controllers}
use wrac_plugin_template.Vst3.OutputEvents.{Surroundings, ClapEvent, Adapter, push_all}
use wrac_plugin_template.Vst3.Input.{ExpressionTypes, VstInput, ClapInput, process_input_events}
use wrac_plugin_template.Vst3.ParamChanges.{Parameter, ValueQueue, ChangeEvent, process_changes}
use wrac_plugin_template.Vst3.Buses.{AudioBuffer, HostBuffers, connect_all}

-- What the output side and the input side of the adapter are set up with.
pub record OutputSetup : Type 1 where
  pub floats : Floats
  pub around : Surroundings floats
  pub sdk : Controllers
  pub bus_by_port : List ℤ

pub record InputSetup : Type 1 where
  pub doubles : Doubles
  pub types : ExpressionTypes
  pub Value : Type 0
  pub parameters : ℕ → Option (Parameter doubles Value)
  pub to_int64 : doubles.Double → ℤ
  pub supports_poly_pressure : Bool
  pub supports_tuning : Bool

module _ (out : OutputSetup) (inp : InputSetup) where
  -- `clap_multi_event_t`, by the two sources of the events of a block.
  pub data BlockEvent : Type 0 where
    from_host : ClapInput inp.doubles inp.types → BlockEvent
    from_change : ChangeEvent inp.doubles inp.Value → BlockEvent

  abbrev pub time_of_event : BlockEvent → ℕ
  time_of_event (from_host e) = e.time
  time_of_event (from_change e) = e.time

  abbrev pub Reads : Type 0
  Reads = List (Option BlockEvent)

  abbrev pub OutputAdapter : Type 0
  OutputAdapter = Adapter out.floats out.around out.sdk out.bus_by_port

  abbrev pub Outputs : Type 0
  Outputs = List (ClapEvent out.floats out.around out.sdk out.bus_by_port)

  -- The plugin: what it gives out when it has read the events. `flush` may be missing. That it may
  -- write to its output ports is left out.
  pub record Plugin : Type 0 where
    pub process : List AudioBuffer → List AudioBuffer → Reads → Outputs
    pub flush : Option (Reads → Outputs)

  -- `Vst::ProcessData` without its context. The counts of the buffers are not read.
  pub record ProcessData : Type 0 where
    pub has_samples : Bool
    pub is_sample64 : Bool
    pub inputs : ℕ → HostBuffers
    pub outputs : ℕ → HostBuffers
    pub input_events : List (Option (VstInput inp.doubles inp.types))
    pub input_parameter_changes : List (ValueQueue inp.doubles inp.Value)
    pub output_parameter_changes : Option (ℕ → Bool)
    pub output_events : Option (List (VstEvent out.floats))

  pub record Processor : Type 0 where
    pub adapter : OutputAdapter
    pub input_ports : List AudioBuffer
    pub output_ports : List AudioBuffer
    pub preset_requests : List ℕ

  -- The lists of the events of a block before they are sorted, with the notes that then play and
  -- the requests for presets.
  abbrev pub host_events :
      Processor → ProcessData → EventList (ClapInput inp.doubles inp.types) × List ActiveNote
  host_events p host =
      let s =
        process_input_events inp.doubles inp.types inp.supports_poly_pressure inp.supports_tuning
          host.input_events (record { list = cleared; active_notes = p.adapter.active_notes }) in
      (s.list, s.active_notes)

  abbrev pub lifted : EventList (ClapInput inp.doubles inp.types) → EventList BlockEvent
  lifted l = record { events = map from_host l.events; indices = l.indices }

  pub gather : Processor → ProcessData → EventList BlockEvent × List ℕ
  gather p host =
      process_changes inp.doubles inp.Value out.sdk inp.parameters p.adapter.gestured inp.to_int64
        out.around.has_automation from_change host.input_parameter_changes
        (lifted (host_events p host).0) p.preset_requests

  -- What the plugin reads in the block.
  pub view : Processor → ProcessData → Reads
  view p host = read_all (sort_event_indices time_of_event (gather p host).0)

  -- What is left to the plugin where it cannot process.
  abbrev pub flushed : Plugin → Reads → Outputs
  flushed plugin seen = elim plugin.flush [ none ↦ [] | some read ↦ read seen ]

  -- The adapter at the start of a block.
  abbrev pub started :
      Option (ℕ → Bool)
      → Option (List (VstEvent out.floats))
      → List ActiveNote
      → OutputAdapter
      → OutputAdapter
  started changes queue notes a = record a {
    sysex = record { bytes = a.sysex.bytes; size = 0 };
    output_changes = changes;
    queue = queue;
    active_notes = notes;
  }

  unfoldable pub process : Plugin → ProcessData → Processor → Processor
  process plugin host p =
      let seen = view p host in
      let adapter =
        started host.output_parameter_changes host.output_events (host_events p host).1 p.adapter in
      let requests = (gather p host).1 in
      let (inputs_fit, input_ports) = connect_all host.is_sample64 host.inputs 0 p.input_ports in
      let (outputs_fit, output_ports) =
        connect_all host.is_sample64 host.outputs 0 p.output_ports in
      if host.has_samples
      then record {
        adapter =
            (push_all out.floats out.around out.sdk out.bus_by_port
              (if inputs_fit && outputs_fit
                then plugin.process input_ports output_ports seen
                else flushed plugin seen)
              adapter).1;
        input_ports = input_ports;
        output_ports = output_ports;
        preset_requests = requests;
      }
      else record p {
        adapter =
            (push_all out.floats out.around out.sdk out.bus_by_port (flushed plugin seen)
              adapter).1;
        preset_requests = requests;
      }

  -- `flush` outside of a block, where `_vstdata` is null: there is no queue of the host.
  pub flush : Plugin → Processor → Processor
  flush plugin p = elim plugin.flush [
    | none ↦ p
    | some read ↦ record p {
      adapter =
          (push_all out.floats out.around out.sdk out.bus_by_port (read [])
            (started none none p.adapter.active_notes p.adapter)).1;
    }
  ]

  -- The calls of a host in order.
  pub data Call : Type 0 where
    block : ProcessData → Call
    flush_params : Call

  pub run : Plugin → List Call → Processor → Processor
  run plugin [] p = p
  run plugin (block host ∷ calls) p = run plugin calls (process plugin host p)
  run plugin (flush_params ∷ calls) p = run plugin calls (flush plugin p)
