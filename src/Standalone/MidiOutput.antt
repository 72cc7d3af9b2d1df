-- ===== src/Standalone/MidiOutput.antt =====
-- The MIDI output of the host (standalone_host_midi.cpp): `outputEventPush` queues what the plugin
-- sends, and the thread of `midiOutputLoop` sends it on.
pub mod Session
mod Tests
use mathlib.Core.List.{flatten}
use wrac_plugin_template.Prelude.{
  ℕ, zero, suc, ◌+◌, ◌^◌, Bool, true, false, not, ◌&&◌, ◌||◌, ◌==◌, ltb, bit_and, bit_or,
  if◌then◌else◌, List, [], ◌∷◌, ◌++◌, Option, some, none, length, get_or, take,
}
use wrac_plugin_template.Prelude.Int.{ℤ, pos, negsuc}
use wrac_plugin_template.MidiRing.{MidiRing, try_push, next_size, pop, clear}

-- The length of a short message, of its status byte.
pub short_midi_message_size : ℕ → ℕ
short_midi_message_size status =
    if ltb status 0x80
    then 0
    else if bit_and status 0xF0 == 0xC0 || bit_and status 0xF0 == 0xD0
    then 2
    else if not (bit_and status 0xF0 == 0xF0)
    then 3
    else if status == 0xF0 || status == 0xF7
    then 0
    else if status == 0xF1 || status == 0xF3
    then 2
    else if status == 0xF2
    then 3
    else 1

-- The events of the core space that are sent on, and the others. The velocity of a note is the
-- integer next to its velocity times 127, which `lround` gives.
pub data Event : Type 0 where
  midi : List ℕ → Event
  sysex : Option (List ℕ) → Event
  note : Bool → ℤ → ℤ → ℤ → Event
  other : Event

abbrev pub in_range : ℤ → ℕ → Bool
in_range (pos n) high = not (ltb high n)
in_range (negsuc n) high = false

abbrev pub value : ℤ → ℕ
value (pos n) = n
value (negsuc n) = 0

abbrev pub clamped : ℤ → ℕ
clamped (pos n) = if ltb 127 n then 127 else n
clamped (negsuc n) = 0

-- The message of a note. A note-on at velocity 0 would be a note-off.
pub note_message : Bool → ℤ → ℤ → ℤ → List ℕ
note_message on channel key velocity =
    let v = clamped velocity in
    bit_or (if on then 0x90 else 0x80) (value channel)
    ∷ value key
    ∷ (if on && v == 0 then 1 else v)
    ∷ []

pub output_event_push : Bool → Event → MidiRing → Bool × MidiRing
output_event_push false e r = (true, r)
output_event_push true (midi bytes) r =
    let size = short_midi_message_size (get_or bytes 0 0) in
    if size == 0 then (true, r) else try_push (2 ^ 16) (some (take size bytes)) r
output_event_push true (sysex buffer) r = try_push (2 ^ 16) buffer r
output_event_push true (note on channel key velocity) r =
    if in_range channel 15 && in_range key 127
    then try_push (2 ^ 16) (some (note_message on channel key velocity)) r
    else (true, r)
output_event_push true other r = (true, r)

abbrev pub is_note_on : List ℕ → Bool
is_note_on m = bit_and (get_or m 0 0) 0xF0 == 0x90

abbrev pub bytes_of : Option (List ℕ) → List ℕ
bytes_of none = []
bytes_of (some m) = m

-- The inner loop: the messages that are sent, and whether a note-on is among them or was before. The
-- number bounds the rounds.
pub send_all : ℕ → Bool → MidiRing → List (List ℕ) × Bool × MidiRing
send_all zero on r = ([], on, r)
send_all (suc rounds) on r =
    let message = bytes_of (pop (2 ^ 16) r).0 in
    let rest = send_all rounds (is_note_on message || on) (pop (2 ^ 16) r).1 in
    if next_size (2 ^ 16) r == 0 then ([], on, r) else (message ∷ rest.0, rest.1, rest.2)

abbrev pub all_notes_off : ℕ → List (List ℕ)
all_notes_off zero = []
all_notes_off (suc n) = all_notes_off n ++ ((bit_or 0xB0 n ∷ 123 ∷ 0 ∷ []) ∷ [])

abbrev pub push_all : List Event → MidiRing → MidiRing
push_all [] r = r
push_all (e ∷ es) r = push_all es (output_event_push true e r).1

-- The outer loop, with what the audio thread queues before each of its rounds.
pub rounds_from : Bool → MidiRing → List (List Event) → List (List ℕ) × MidiRing
rounds_from on r [] = ((if on then all_notes_off 16 else []), r)
rounds_from on r (es ∷ more) =
    let sent = send_all (2 ^ 16) on (push_all es r) in
    let rest = rounds_from sent.1 sent.2 more in (sent.0 ++ rest.0, rest.1)

-- `startMidiOutputThreadIfNeeded`, the thread, and its end.
pub midi_output_loop : MidiRing → List (List Event) → List (List ℕ) × MidiRing
midi_output_loop r rounds = rounds_from false (clear (2 ^ 16) r) rounds
