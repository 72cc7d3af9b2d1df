-- ===== src/Vst3/OutputEvents/Playable.antt =====
-- What the host is given is well-formed, whatever the plugin gives out.
use mathlib.Core.Option.{some-injective}
use wrac_plugin_template.Prelude.{
  inr, inl, Bool-cases, Option-cases, ◌≡◌, ◌||◌, ◌&&◌, not, leb, ltb, ℕ, Bool, true, false, ◌==◌,
  List, [], ◌∷◌, Option, none, some, arith, All, All-append, zero, suc, length, get_elem?,
}
use wrac_plugin_template.Prelude.Bits.{bit_and-mask}
use wrac_plugin_template.Prelude.Int.{eq_ℤ, eq_ℤ_refl, ℤ, is_negative, to_ℕ}
use wrac_plugin_template.Vst3.Output.{
  Floats, Header, Body, note_on, note_off, legacy_midi_cc_out, midi_sys_ex, VstEvent,
  output_bus_index, push_vst_output_event, create_note_on_output_event,
  create_note_off_output_event,
}
use wrac_plugin_template.Vst3.Midi1.{
  Controllers, MidiEvent, channel_output, system_output, midi1_output, enqueue_midi1_output_event,
}
use wrac_plugin_template.Vst3.SysEx.{
  is_refused, enqueue_sysex_output_event, store_and_push, SysexOutput, SysexEvent,
}
use wrac_plugin_template.Vst3.OutputEvents.{
  midi_sysex, midi, gesture_end, gesture_begin, param_value, note_off_event, note_on_event,
  is_out_of_range, Surroundings, ClapEvent, Kind, NoteEvent, Adapter, enqueue_note,
  enqueue_param_value, enqueue_gesture_begin, enqueue_gesture_end, enqueue_kind,
  enqueue_output_event, push_all,
}

abbrev pub is_below : ℕ → ℤ → Bool
is_below n z = not (is_negative z) && ltb (to_ℕ z) n

-- A bus of the host's table: a negative entry there is a port without a bus.
abbrev pub is_listed : ℤ → List ℤ → Bool
is_listed bus [] = false
is_listed bus (x ∷ xs) = eq_ℤ x bus || is_listed bus xs

abbrev pub is_output_bus : List ℤ → ℤ → Bool
is_output_bus buses bus = not (is_negative bus) && is_listed bus buses

get_elem-is_listed :
    (buses : List ℤ) (port : ℕ) (bus : ℤ)
    → get_elem? buses port ≡ some bus
    → is_listed bus buses ≡ true
get_elem-is_listed [] port bus e = cc
get_elem-is_listed (x ∷ xs) zero bus e = rw (some-injective x bus e) (ground (arith, eq_ℤ_refl bus))
get_elem-is_listed (x ∷ xs) (suc port) bus e = ground (arith, get_elem-is_listed xs port bus e)

output_bus_index-is_output_bus :
    (buses : List ℤ) (port : ℤ)
    → is_negative (output_bus_index buses port) ≡ false
    → is_output_bus buses (output_bus_index buses port) ≡ true
output_bus_index-is_output_bus buses port h =
    elim (Bool-cases (is_negative port || leb (length buses) (to_ℕ port))) [
      | inl c ↦ absurd (ground (arith, h, c))
      | inr c ↦ elim (Option-cases (get_elem? buses (to_ℕ port))) [
        | inl d ↦ absurd (ground (arith, h, c, d))
        | inr (bus, d) ↦ ground (arith, h, c, d, get_elem-is_listed buses (to_ℕ port) bus d)
      ]
    ]

module _ (floats : Floats) (buses : List ℤ) where
  abbrev pub is_playable_body : Body floats → Bool
  is_playable_body (note_on channel key v id) = is_below 16 channel && is_below 128 key
  is_playable_body (note_off channel key v id) = is_below 16 channel && is_below 128 key
  is_playable_body (legacy_midi_cc_out channel number v w) =
      is_below 16 channel && is_below 128 v && is_below 128 w
  is_playable_body (midi_sys_ex at n) = leb 2 n

  -- An event for a bus of the table, with its channel, key and values in their ranges.
  abbrev pub IsPlayable : VstEvent floats → Type 0
  IsPlayable e = (is_output_bus buses e.bus_index ≡ true) × (is_playable_body e.body ≡ true)

  abbrev pub IsQueue : Option (List (VstEvent floats)) → Type 0
  IsQueue none = Unit
  IsQueue (some es) = All IsPlayable es

  push-IsQueue :
      (add_event : List (VstEvent floats) → VstEvent floats → Bool) (e : VstEvent floats)
      (q : Option (List (VstEvent floats)))
      → IsPlayable e
      → IsQueue q
      → IsQueue (push_vst_output_event floats add_event e q).1
  unfolding push_vst_output_event
  push-IsQueue add_event e none p v = v
  push-IsQueue add_event e (some es) p v = elim (Bool-cases (add_event es e)) [
    | inl c ↦ rw c (All-append IsPlayable es (e ∷ []) v (p, _))
    | inr c ↦ rw c v
  ]

  abbrev IsPlayable? : Option (VstEvent floats) → Type 0
  IsPlayable? none = Unit
  IsPlayable? (some e) = IsPlayable e

  channel-IsPlayable :
      (sdk : Controllers) (bus : ℤ) (e : MidiEvent)
      → is_output_bus buses bus ≡ true
      → IsPlayable? (channel_output floats sdk bus e)
  unfolding channel_output
  channel-IsPlayable sdk bus e b = ground (arith, bit_and-mask 4 e.data0)

  system-IsPlayable :
      (sdk : Controllers) (bus : ℤ) (e : MidiEvent)
      → is_output_bus buses bus ≡ true
      → IsPlayable? (system_output floats sdk bus e)
  unfolding system_output
  system-IsPlayable sdk bus e b = ground arith

  midi1-IsPlayable :
      (sdk : Controllers) (e : MidiEvent) → IsPlayable? (midi1_output floats sdk buses e)
  unfolding midi1_output
  midi1-IsPlayable sdk e = elim (Bool-cases (is_negative (output_bus_index buses e.port_index))) [
    | inl c ↦ rw c _
    | inr c ↦
        let bus = output_bus_index buses e.port_index in
        let exists = output_bus_index-is_output_bus buses e.port_index c in
        rw c (elim (Bool-cases (ltb e.data0 0xf0)) [
          | inl d ↦ rw d (channel-IsPlayable sdk bus e exists)
          | inr d ↦ rw d (system-IsPlayable sdk bus e exists)
        ])
  ]

  module _ (around : Surroundings floats) (sdk : Controllers) where
    midi1-IsQueue :
        (e : MidiEvent) (q : Option (List (VstEvent floats)))
        → IsQueue q
        → IsQueue (enqueue_midi1_output_event floats sdk around.add_event buses e q).1
    unfolding enqueue_midi1_output_event
    midi1-IsQueue e q v = go (midi1_output floats sdk buses e) (midi1-IsPlayable sdk e)
      where
        go :
            (o : Option (VstEvent floats))
            → IsPlayable? o
            → IsQueue
                (elim o as (λ x. Bool × Option (List (VstEvent floats))) [
                  | none ↦ (false, q)
                  | some output ↦ push_vst_output_event floats around.add_event output q
                ]).1
        go none p = v
        go (some output) p = push-IsQueue around.add_event output q p v

    sysex-IsQueue :
        (e : SysexEvent) (s : SysexOutput) (q : Option (List (VstEvent floats)))
        → IsQueue q
        → IsQueue (enqueue_sysex_output_event floats around.add_event buses e s q).2
    unfolding enqueue_sysex_output_event store_and_push
    sysex-IsQueue e s q v = elim (Option-cases e.buffer) [
      | inl c ↦ rw c v
      | inr (b, c) ↦
          rw c
            (elim (Bool-cases
              (is_negative (output_bus_index buses e.port_index) || is_refused b s.size)) [
                | inl d ↦ rw d v
                | inr d ↦ rw d (
                    push-IsQueue around.add_event _ q
                      (ground (arith, output_bus_index-is_output_bus buses e.port_index)) v)
              ])
    ]

    note-IsQueue :
        (create : Header → ℤ → ℤ → ℤ → floats.Float → ℤ → VstEvent floats) (h : Header)
        (n : NoteEvent floats around sdk buses) (a : Adapter floats around sdk buses)
        → ((bus channel key : ℤ) (v : floats.Float) (id : ℤ)
            → (is_output_bus buses bus && is_below 16 channel && is_below 128 key) ≡ true
            → IsPlayable (create h bus channel key v id))
        → IsQueue a.queue
        → IsQueue (enqueue_note floats around sdk buses create h n a).1.queue
    unfolding enqueue_note
    note-IsQueue create h n a f v =
        elim (Bool-cases (
          is_out_of_range floats around sdk buses (output_bus_index buses n.note.port_index)
            n.note)) [
              | inl c ↦ rw c v
              | inr c ↦ rw c (
                  push-IsQueue around.add_event _ a.queue
                    (f _ _ _ _ _
                      (ground (arith, output_bus_index-is_output_bus buses n.note.port_index)))
                    v)
            ]

    param_value-queue :
        (h : Header) (p : ℕ) (x : around.Value) (a : Adapter floats around sdk buses)
        → (enqueue_param_value floats around sdk buses h p x a).queue ≡ a.queue
    unfolding enqueue_param_value
    param_value-queue h p x a = ground arith

    gesture_begin-queue :
        (p : ℕ) (a : Adapter floats around sdk buses)
        → (enqueue_gesture_begin floats around sdk buses p a).queue ≡ a.queue
    unfolding enqueue_gesture_begin
    gesture_begin-queue p a = ground arith

    gesture_end-queue :
        (p : ℕ) (a : Adapter floats around sdk buses)
        → (enqueue_gesture_end floats around sdk buses p a).queue ≡ a.queue
    unfolding enqueue_gesture_end
    gesture_end-queue p a = ground arith

    kind-IsQueue :
        (h : Header) (k : Kind floats around sdk buses) (a : Adapter floats around sdk buses)
        → IsQueue a.queue
        → IsQueue (enqueue_kind floats around sdk buses h k a).1.queue
    kind-IsQueue h (note_on_event n) a v =
        note-IsQueue (create_note_on_output_event floats) h n a (λ bus c k x i g. ground arith) v
    kind-IsQueue h (note_off_event n) a v =
        note-IsQueue (create_note_off_output_event floats) h n a (λ bus c k x i g. ground arith) v
    kind-IsQueue h (param_value p x) a v = rw (param_value-queue h p x a) v
    kind-IsQueue h (gesture_begin p) a v = rw (gesture_begin-queue p a) v
    kind-IsQueue h (gesture_end p) a v = rw (gesture_end-queue p a) v
    kind-IsQueue h (midi port d0 d1 d2) a v = midi1-IsQueue _ a.queue v
    kind-IsQueue h (midi_sysex port b) a v = sysex-IsQueue _ a.sysex a.queue v
    kind-IsQueue h k a v = v

    event-IsQueue :
        (e : ClapEvent floats around sdk buses) (a : Adapter floats around sdk buses)
        → IsQueue a.queue
        → IsQueue (enqueue_output_event floats around sdk buses e a).1.queue
    unfolding enqueue_output_event
    event-IsQueue e a v = elim (Bool-cases (e.header.space_id == around.core_space)) [
      | inl c ↦ rw c (kind-IsQueue e.header e.kind a v)
      | inr c ↦ rw c v
    ]

    -- Whatever the plugin gives out, the host only gets events for buses of its table that are not
    -- negative, with channels below 16 and keys and values below 128.
    pub push_all-IsQueue :
        (es : List (ClapEvent floats around sdk buses)) (a : Adapter floats around sdk buses)
        → IsQueue a.queue
        → IsQueue (push_all floats around sdk buses es a).1.queue
    unfolding push_all
    push_all-IsQueue [] a v = v
    push_all-IsQueue (e ∷ es) a v = push_all-IsQueue es _ (event-IsQueue e a v)
