-- ===== src/Vst3/Block/Tests.antt =====
-- A small host and a small plugin.
use mathlib.Core.List.{Perm}
use wrac_plugin_template.Prelude.{
  ◌==◌, ◌≤◌, ◌^◌, ℕ, ◌≡◌, ◌+◌, ◌/◌, ◌*◌, ◌-◌, ◌<◌, refl, List, [], ◌∷◌, Option, none, some, true,
  false, ltb, arith, length, map, replicate, ◌||◌, if◌then◌else◌,
}
use wrac_plugin_template.Prelude.Int.{ℤ, pos, minus_one}
use wrac_plugin_template.Prelude.Double.{Doubles}
use wrac_plugin_template.Vst3.ActiveNotes.{add_to_active_notes, add_to_active_notes}
use wrac_plugin_template.Vst3.EventOrder.Stable.{IsAscending, at_time}
use wrac_plugin_template.Vst3.Output.{Floats, Header}
use wrac_plugin_template.Vst3.Midi1.{Controllers}
use wrac_plugin_template.Vst3.OutputEvents.{
  enqueue_output_event, enqueue_param_value, Surroundings, ClapEvent, Adapter, push_all,
  gesture_begin, gesture_end, param_value, midi,
}
use wrac_plugin_template.Vst3.OutputEvents.Gestures.{IsInStep}
use wrac_plugin_template.Vst3.OutputEvents.Playable.{IsQueue, push_all-IsQueue}
use wrac_plugin_template.Vst3.Input.{
  process_input_event, process_note_on, process_poly_pressure, process_expression, last_voice,
  last_voice, process_expression, process_poly_pressure, process_note_on, process_input_event,
  ExpressionTypes, VstInput, InputState, on, expression_value, poly_pressure, process_input_events,
}
use wrac_plugin_template.Vst3.Input.Addressed.{IsInput, process_input_events-IsInput}
use wrac_plugin_template.Vst3.Buses.{AudioBuffer, HostBuffers, setup_ports}
use wrac_plugin_template.Vst3.ParamChanges.{
  process_change, process_changes, process_change, Parameter, midi_of,
}
use wrac_plugin_template.Vst3.ParamChanges.Messages.{Carries, midi_of-Carries}
use wrac_plugin_template.Vst3.Transport.{StateBits, TransportFlags, has, flags_of}
use wrac_plugin_template.Vst3.Transport.Flags.{flags_of_lem}
use wrac_plugin_template.Vst3.Block.{
  process_changes, InputSetup, OutputSetup, Plugin, ProcessData, Processor, block, flush_params,
  gather, view, flush, run, time_of_event, BlockEvent,
}
use wrac_plugin_template.Vst3.Block.Order.{view_in_order}
use wrac_plugin_template.Vst3.Block.Sequence.{run-IsInStep}

-- Doubles that are not negative, in hundredths.
abbrev hundredths : Doubles
hundredths = record {
  Double = ℕ;
  lit = λ n. n * 100;
  neg = λ a. 0;
  add = λ a b. a + b;
  sub = λ a b. a - b;
  mul = λ a b. a * b / 100;
  div = λ a b. a * 100 / b;
  floor = λ a. a / 100 * 100;
  lt = ltb;
  trunc = λ a. a / 100;
}

abbrev floats : Floats
floats = record { Float = ℕ; lit = λ n. n * 127; div = λ a b. a * 127 / b; lt = ltb }

abbrev sdk : Controllers
sdk = record {
  after_touch = 128;
  pitch_bend = 129;
  program_change = 130;
  poly_pressure = 131;
  quarter_frame = 132;
  song_select = 133;
  song_pointer = 134;
  tune_request = 136;
  clock_start = 137;
  clock_continue = 138;
  clock_stop = 139;
  active_sensing = 140;
}

-- A host with parameters up to 9 that listens to edits, and takes two events.
abbrev around : Surroundings floats
around = record {
  core_space = 0;
  Value = ℕ;
  to_float = λ v. v;
  get_parameter = λ id. if ltb id 10 then some id else none;
  as_vst3_value = λ id v. v / 2;
  has_automation = true;
  add_event = λ held e. ltb (length held) 2;
}

abbrev types : ExpressionTypes
types = record {
  vst_volume = 0;
  vst_pan = 1;
  vst_tuning = 2;
  vst_vibrato = 3;
  vst_expression = 4;
  vst_brightness = 5;
  clap_volume = 0;
  clap_pan = 1;
  clap_tuning = 2;
  clap_vibrato = 3;
  clap_expression = 4;
  clap_brightness = 5;
  clap_pressure = 6;
}

abbrev buses : List ℤ
buses = pos 0 ∷ minus_one ∷ []

abbrev header : Header
header = record { time = 5; space_id = 0; type = 1; is_live = false }

-- A gesture around a value, and a MIDI note.
abbrev given : List (ClapEvent floats around sdk buses)
given =
    record { header = header; kind = gesture_begin 3 }
    ∷ record { header = header; kind = param_value 3 40 }
    ∷ record { header = header; kind = gesture_end 3 }
    ∷ record { header = header; kind = midi (pos 0) 0x91 60 100 }
    ∷ []

abbrev idle : Adapter floats around sdk buses
idle = record {
  gestured = [];
  edits = [];
  points = [];
  active_notes = [];
  sysex = record { bytes = replicate (64 * 1024) 0; size = 0 };
  output_changes = none;
  queue = some [];
}

idle-IsInStep : IsInStep floats around sdk buses idle
idle-IsInStep = record { bracketed = refl; opened = λ id. refl }

push_all-IsQueue_example :
    IsQueue floats buses (push_all floats around sdk buses given idle).1.queue
push_all-IsQueue_example = push_all-IsQueue floats buses around sdk given idle _

-- A note-on late in the block, then an expression for it early in the block.
abbrev played : List (Option (VstInput hundredths types))
played =
    some (record { sample_offset = pos 9; is_live = true; body = on (pos 0) (pos 60) 0 80 (pos 4) })
    ∷ none
    ∷ some (record { sample_offset = pos 2; is_live = false; body = expression_value 2 (pos 4) 75 })
    ∷ some (record {
      sample_offset = pos 9;
      is_live = false;
      body = poly_pressure (pos 0) (pos 60) 50 (pos 4);
    })
    ∷ []

abbrev silence : InputState hundredths types
silence = record { list = record { events = []; indices = [] }; active_notes = [] }

process_input_events-IsInput_example :
    IsInput hundredths types false (process_input_events hundredths types false true played silence)
    × (3 ≤ length (process_input_events hundredths types false true played silence).list.events)
unfolding add_to_active_notes
process_input_events-IsInput_example =
    process_input_events-IsInput hundredths types false true played silence refl
      (record { events = _; indices = refl })

abbrev bend : Parameter hundredths ℕ
bend = record {
  id = 1;
  cookie = 0;
  is_preset = false;
  is_midi = true;
  channel = 2;
  controller = 129;
  as_clap_value = λ v. v * 100;
}

midi_of-Carries_example :
    Carries hundredths ℕ sdk bend 8193
      (midi_of hundredths ℕ sdk (λ id. some bend) [] (λ v. pos (v / 100)) true bend 8193)
midi_of-Carries_example =
    midi_of-Carries hundredths ℕ sdk (λ id. some bend) [] (λ v. pos (v / 100)) true bend 8193
      (omega arith) (omega arith) refl refl

abbrev stereo : HostBuffers
stereo = record { num_channels = 2; channel_buffers32 = 1000; channel_buffers64 = 2000 }

abbrev port : AudioBuffer
port = record { channel_count = 2; data32 = some 7; data64 = none; constant_mask = 0; latency = 0 }

abbrev bits : StateBits
bits = record {
  playing = 2;
  recording = 8;
  cycle_active = 4;
  tempo_valid = 1024;
  bar_position_valid = 2048;
  time_sig_valid = 8192;
  project_time_music_valid = 512;
  cycle_valid = 4096;
}

abbrev clap_flags : TransportFlags
clap_flags = record {
  has_tempo = 1;
  has_beats_timeline = 2;
  has_seconds_timeline = 4;
  has_time_signature = 8;
  is_playing = 16;
  is_recording = 32;
  is_loop_active = 64;
}

flags_of_lem_example :
    let f = flags_of bits clap_flags 1538 in
    (has f 16 ≡ true)
    × (has f 32 ≡ false)
    × (has f 64 ≡ false)
    × (has f 1 ≡ true)
    × (has f 2 ≡ (false || true))
    × (has f 4 ≡ true)
    × (has f 8 ≡ false)
flags_of_lem_example = flags_of_lem bits clap_flags 1538 (record {
  has_tempo = refl;
  has_beats_timeline = refl;
  has_seconds_timeline = refl;
  has_time_signature = refl;
  is_playing = refl;
  is_recording = refl;
  is_loop_active = refl;
})

abbrev out : OutputSetup
out = record { floats = floats; around = around; sdk = sdk; bus_by_port = buses }

abbrev inp : InputSetup
inp = record {
  doubles = hundredths;
  types = types;
  Value = ℕ;
  parameters = λ id. some bend;
  to_int64 = λ v. pos (v / 100);
  supports_poly_pressure = true;
  supports_tuning = true;
}

abbrev start : Processor out inp
start = record {
  adapter = idle;
  input_ports = port ∷ [];
  output_ports = port ∷ [];
  preset_requests = [];
}

abbrev host : ProcessData out inp
host = record {
  has_samples = true;
  is_sample64 = false;
  inputs = λ i. stereo;
  outputs = λ i. stereo;
  input_events = played;
  input_parameter_changes = record { parameter_id = 1; points = some (pos 4, 64) ∷ [] } ∷ [];
  output_parameter_changes = some (λ id. id == 3);
  output_events = some [];
}

-- A plugin that gives out the same whenever it is called.
abbrev plugin : Plugin out inp
plugin = record { process = λ ins outs seen. given; flush = some (λ seen. given) }

host_count : length (gather out inp start host).0.events ≡ 4
unfolding gather process_input_events process_input_event process_note_on process_poly_pressure
    process_expression last_voice add_to_active_notes process_changes process_change midi_of
host_count = refl

host-fits : length (gather out inp start host).0.events < 2 ^ 32
host-fits = omega (arith, host_count)

view_in_order_example :
    let made = (gather out inp start host).0.events in
    (seen : List (BlockEvent out inp)) × (view out inp start host ≡ map some seen)
    × Perm seen made
    × IsAscending (time_of_event out inp) seen
    × ((t : ℕ) → at_time (time_of_event out inp) t seen ≡ at_time (time_of_event out inp) t made)
view_in_order_example = view_in_order out inp start host host-fits

run-IsInStep_example :
    IsInStep floats around sdk buses
      (run out inp plugin (block host ∷ flush_params ∷ block host ∷ []) start).adapter
run-IsInStep_example =
    run-IsInStep out inp plugin (block host ∷ flush_params ∷ block host ∷ []) start refl
      idle-IsInStep

-- The ports as they are set up, and a block of doubles and then one that does not fit before.
abbrev set_up : Processor out inp
set_up = record start {
  input_ports = setup_ports (some 2 ∷ none ∷ []);
  output_ports = setup_ports (some 2 ∷ []);
}

abbrev silent_bus : HostBuffers
silent_bus = record { num_channels = 0; channel_buffers32 = 3000; channel_buffers64 = 4000 }

abbrev buffers : ℕ → HostBuffers
buffers i = if i == 0 then stereo else silent_bus

abbrev of_doubles : ProcessData out inp
of_doubles = record host { is_sample64 = true; inputs = buffers }

-- A parameter value is a point for the host in a block with output changes, and none in a flush.
abbrev edit : List (ClapEvent floats around sdk buses)
edit = record { header = header; kind = param_value 3 40 } ∷ []

abbrev editor : Plugin out inp
editor = record { process = λ ins outs seen. edit; flush = some (λ seen. edit) }

points_of_block :
    length
      (push_all floats around sdk buses edit
        (record idle { output_changes = some (λ id. true) })).1.points
    ≡ 1
unfolding push_all enqueue_output_event enqueue_param_value
points_of_block = refl

points_of_flush : length (flush out inp editor start).adapter.points ≡ 0
unfolding flush push_all enqueue_output_event enqueue_param_value
points_of_flush = refl
