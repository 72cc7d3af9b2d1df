-- ===== src/Vst3/SysEx.antt =====
-- `enqueueSysexOutputEvent`: a system exclusive message is copied to a bounded buffer, to which the
-- event of the host points.
pub mod Regions
pub mod Storage
use wrac_plugin_template.Prelude.{
  ◌*◌, ◌||◌, ◌+◌, ◌-◌, ◌%◌, ◌^◌, ◌<◌, ℕ, Bool, true, false, ltb, not, ◌==◌, List, [], ◌∷◌, ◌++◌,
  length, take, drop, get_or, Option, none, some, if◌then◌else◌,
}
use wrac_plugin_template.Prelude.Int.{ℤ, is_negative}
use wrac_plugin_template.Vst3.Output.{
  Floats, Header, midi_sys_ex, VstEvent, create_output_event, output_bus_index,
  push_vst_output_event,
}

-- `clap_event_midi_sysex_t`: `buffer[0 .. size)`, or a null pointer.
pub record SysexEvent : Type 0 where
  pub header : Header
  pub port_index : ℤ
  pub buffer : Option (List ℕ)

-- `_sysexOutputBuffer` and `_sysexOutputSize`
pub record SysexOutput : Type 0 where
  pub bytes : List ℕ
  pub size : ℕ

abbrev pub sysex_output_capacity : ℕ
sysex_output_capacity = 64 * 1024

-- memcpy(to + at, from, length from), within `to`
abbrev pub memcpy : List ℕ → ℕ → List ℕ → List ℕ
memcpy to at source = take at to ++ (source ++ drop (at + length source) to)

-- The guard of a buffer that is not null, with the wrap of `size_t`.
abbrev pub is_refused : List ℕ → ℕ → Bool
is_refused b used =
    ltb (length b) 2
    || not (get_or b 0 0 == 0xf0)
    || not (get_or b (length b - 1) 0 == 0xf7)
    || ltb ((sysex_output_capacity + 2 ^ 64 - used) % 2 ^ 64) (length b)

module _ (floats : Floats) (add_event : List (VstEvent floats) → VstEvent floats → Bool)
    (bus_by_port : List ℤ) where
  abbrev pub Queue : Type 0
  Queue = Option (List (VstEvent floats))

  -- The copy, the push and the new size; a refused push keeps the copy but not the size.
  unfoldable pub store_and_push :
      SysexEvent → List ℕ → SysexOutput → Queue → Bool × SysexOutput × Queue
  store_and_push event b s queue =
      let bytes = memcpy s.bytes s.size b in
      let output =
        create_output_event floats event.header (output_bus_index bus_by_port event.port_index)
          (midi_sys_ex s.size (length b)) in
      let (pushed, queue') = push_vst_output_event floats add_event output queue in
      (
        pushed,
        record { bytes = bytes; size = if pushed then s.size + length b else s.size },
        queue',
      )

  unfoldable pub enqueue_sysex_output_event :
      SysexEvent → SysexOutput → Queue → Bool × SysexOutput × Queue
  enqueue_sysex_output_event event s queue = elim event.buffer [
    | none ↦ (false, s, queue)
    | some b ↦
        if is_negative (output_bus_index bus_by_port event.port_index) || is_refused b s.size
        then (false, s, queue)
        else store_and_push event b s queue
  ]

  -- The calls of one block in order; the payloads for which the adapter returned true.
  pub enqueue_all : List SysexEvent → SysexOutput → Queue → List (List ℕ) × SysexOutput × Queue
  enqueue_all [] s queue = ([], s, queue)
  enqueue_all (e ∷ es) s queue =
      let (done, s', queue') = enqueue_sysex_output_event e s queue in
      let (sent, s_end, queue_end) = enqueue_all es s' queue' in
      (if done then elim e.buffer [ none ↦ sent | some b ↦ b ∷ sent ] else sent, s_end, queue_end)
