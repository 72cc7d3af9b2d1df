-- ===== src/Standalone/MidiInput.antt =====
-- The MIDI input of the host: `processMIDIMessage` (standalone_host_midi.cpp), which the threads of a
-- backend call, and the part of `process` (standalone_host.cpp) that makes a block's events.
pub mod Block
pub mod Flow
pub mod Progress
mod Tests
use wrac_plugin_template.Prelude.{
  ℕ, zero, suc, ◌+◌, ◌-◌, ◌^◌, Bool, true, false, not, ◌==◌, ltb, u32, if◌then◌else◌, List, [], ◌∷◌,
  ◌++◌, Option, none, some, length, get_or, take, replicate,
}
use wrac_plugin_template.MidiRing.{MidiRing, try_push, next_size, next_status, pop}

pub record Input : Type 0 where
  pub midi_to_audio : MidiRing
  pub midi_dropped : ℕ

-- `none` is the null pointer. The lock makes the push one step.
pub process_midi_message : Bool → Option (List ℕ) → Input → Input
process_midi_message has_midi_input none s = s
process_midi_message has_midi_input (some []) s = s
process_midi_message has_midi_input (some (status ∷ bytes)) s =
    let size = length (status ∷ bytes) in
    let pushed = try_push (2 ^ 16) (some (take (u32 size) (status ∷ bytes))) s.midi_to_audio in
    if status == 0xFE
    then s
    else if (if status == 0xF0 then not has_midi_input else ltb 3 size)
    then s
    else if pushed.0
    then record s { midi_to_audio = pushed.1 }
    else record s { midi_dropped = u32 (s.midi_dropped + 1) }

-- A short message's event has three bytes, zero where the message has none. That of a system
-- exclusive message has the place and the size of its bytes in the arena.
pub data Event : Type 0 where
  midi : List ℕ → Event
  sysex : ℕ → ℕ → Event

abbrev pub midi_data : List ℕ → List ℕ
midi_data m = m ++ replicate (3 - length m) 0

abbrev pub popped : Option (List ℕ) → List ℕ
popped none = []
popped (some m) = m

abbrev pub arena_size : ℕ
arena_size = 65536

-- A block's events, with the bytes written to the arena. The first number is the room for events;
-- each round but the last takes one.
unfoldable pub gather : ℕ → MidiRing → List ℕ → List Event × List ℕ × MidiRing
gather zero ring arena = ([], arena, ring)
gather (suc room) ring arena =
    let size = next_size (2 ^ 16) ring in
    let taken = pop (2 ^ 16) ring in
    let message = popped taken.0 in
    let short = gather room taken.1 arena in
    let long = gather room taken.1 (arena ++ message) in
    if size == 0
    then ([], arena, ring)
    else if not (next_status (2 ^ 16) ring == 0xF0)
    then (midi (midi_data message) ∷ short.0, short.1, short.2)
    else if ltb arena_size (u32 (length arena + size))
    then ([], arena, ring)
    else (sysex (length arena) (length message) ∷ long.0, long.1, long.2)

abbrev pub max_events_per_cycle : ℕ
max_events_per_cycle = 256

unfoldable pub input_events : Input → List Event × List ℕ × Input
unfolding gather
input_events s =
    let block = gather max_events_per_cycle s.midi_to_audio [] in
    (block.0, block.1, record s { midi_to_audio = block.2 })
