-- ===== src/Vst3/Midi1/Forward.antt =====
-- The forwarded messages read back as what they were, by their kinds.
use wrac_plugin_template.Prelude.{
  ap, ◌∙◌, sym, ==_iff, ◌*◌, ltb→lt, ◌%◌, inr, ◌/◌, inl, ◌≤◌, Bool-cases, ◌||◌, bit_and, ◌+◌, ◌<◌,
  ℕ, Bool, true, false, ltb, leb, ◌==◌, List, ◌≡◌, refl, arith, if◌then◌else◌,
}
use wrac_plugin_template.Prelude.Int.{ℤ, is_negative}
use wrac_plugin_template.Prelude.Bits.{high_nibble, bit_and-mask}
use wrac_plugin_template.Vst3.Output.{output_bus_index, Floats}
use wrac_plugin_template.Vst3.Midi1.{
  Controllers, MidiEvent, midi1_output, channel_output, system_output,
}
use wrac_plugin_template.Vst3.Midi1.Reading.{InOrder, Reads, ReadsVelocity}

-- The channel messages, by their high nibble.
data Message : Type 0 where
  off : Message
  on : Message
  poly : Message
  control : Message
  program : Message
  pressure : Message
  bend : Message

abbrev status_of : Message → ℕ
status_of off = 0x80
status_of on = 0x90
status_of poly = 0xA0
status_of control = 0xB0
status_of program = 0xC0
status_of pressure = 0xD0
status_of bend = 0xE0

-- The system messages that are forwarded.
data System : Type 0 where
  quarter_frame : System
  song_pointer : System
  song_select : System
  tune_request : System
  clock_start : System
  clock_continue : System
  clock_stop : System
  active_sensing : System

abbrev system_status : System → ℕ
system_status quarter_frame = 0xF1
system_status song_pointer = 0xF2
system_status song_select = 0xF3
system_status tune_request = 0xF6
system_status clock_start = 0xFA
system_status clock_continue = 0xFB
system_status clock_stop = 0xFC
system_status active_sensing = 0xFE

abbrev is_system : ℕ → Bool
is_system d =
    d == 0xF1
    || d == 0xF2
    || d == 0xF3
    || d == 0xF6
    || d == 0xFA
    || d == 0xFB
    || d == 0xFC
    || d == 0xFE

abbrev system_of : ℕ → System
system_of d =
    if d == 0xF1
    then quarter_frame
    else if d == 0xF2
    then song_pointer
    else if d == 0xF3
    then song_select
    else if d == 0xF6
    then tune_request
    else if d == 0xFA
    then clock_start
    else if d == 0xFB
    then clock_continue
    else if d == 0xFC
    then clock_stop
    else active_sensing

system_status-system_of : (d : ℕ) → is_system d ≡ true → d ≡ system_status (system_of d)
system_status-system_of d h = ground arith

abbrev message_of : ℕ → Message
message_of d =
    if ltb d 0x90
    then off
    else if ltb d 0xA0
    then on
    else if ltb d 0xB0
    then poly
    else if ltb d 0xC0
    then control
    else if ltb d 0xD0
    then program
    else if ltb d 0xE0
    then pressure
    else bend

status_of-message_of : (d : ℕ) → 0x80 ≤ d → d < 0xF0 → status_of (message_of d) ≡ d / 16 % 16 * 16
status_of-message_of d h l = ground arith

module _ (floats : Floats) (sdk : Controllers) (velocity : floats.Float → ℕ) where
  open floats use {lit, div}

  module _ (bus_by_port : List ℤ) (e : MidiEvent) (o : InOrder sdk)
      (v : ReadsVelocity floats sdk velocity) (h1 : e.data1 < 256) (h2 : e.data2 < 256)
      (b : is_negative (output_bus_index bus_by_port e.port_index) ≡ false) where
    channel_at :
        (m : Message)
        → bit_and e.data0 0xF0 ≡ status_of m
        → e.data0 ≡ status_of m + bit_and e.data0 0x0F
        → bit_and e.data0 0x0F < 16
        → Reads floats sdk velocity bus_by_port e
            (channel_output floats sdk (output_bus_index bus_by_port e.port_index) e)
    unfolding channel_output
    channel_at off em ed lt = rw em (ground (arith, v e.data2))
    channel_at on em ed lt = rw em (ground (arith, v e.data2))
    channel_at poly em ed lt = rw em (ground (arith, v e.data2))
    channel_at control em ed lt = rw em (ground (arith, v e.data2))
    channel_at program em ed lt = rw em (ground (arith, v e.data2))
    channel_at pressure em ed lt = rw em (ground (arith, v e.data2))
    channel_at bend em ed lt = rw em (ground (arith, v e.data2))

    channel_below :
        e.data0 < 0x80
        → Reads floats sdk velocity bus_by_port e
            (channel_output floats sdk (output_bus_index bus_by_port e.port_index) e)
    unfolding channel_output
    channel_below h =
        rw
          (
            not_equal 0x80 refl,
            not_equal 0x90 refl,
            not_equal 0xA0 refl,
            not_equal 0xB0 refl,
            not_equal 0xC0 refl,
            not_equal 0xD0 refl,
            not_equal 0xE0 refl,
          )
          (ground arith)
      where
        not_equal : (k : ℕ) → leb 0x80 k ≡ true → (bit_and e.data0 0xF0 == k) ≡ false
        not_equal k le = ground (arith, high_nibble e.data0)

    system_at :
        (s : System)
        → e.data0 ≡ system_status s
        → Reads floats sdk velocity bus_by_port e
            (system_output floats sdk (output_bus_index bus_by_port e.port_index) e)
    unfolding system_output
    system_at quarter_frame es = rw es (ground arith)
    system_at song_pointer es = rw es (ground arith)
    system_at song_select es = rw es (ground arith)
    system_at tune_request es = rw es (ground arith)
    system_at clock_start es = rw es (ground arith)
    system_at clock_continue es = rw es (ground arith)
    system_at clock_stop es = rw es (ground arith)
    system_at active_sensing es = rw es (ground arith)

    system_other :
        0xF0 ≤ e.data0
        → is_system e.data0 ≡ false
        → Reads floats sdk velocity bus_by_port e
            (system_output floats sdk (output_bus_index bus_by_port e.port_index) e)
    unfolding system_output
    system_other h n =
        rw
          (
            differs 0xF1 refl,
            differs 0xF2 refl,
            differs 0xF3 refl,
            differs 0xF6 refl,
            differs 0xFA refl,
            differs 0xFB refl,
            differs 0xFC refl,
            differs 0xFE refl,
          )
          (ground arith)
      where
        differs : (k : ℕ) → is_system k ≡ true → (e.data0 == k) ≡ false
        differs k t = elim (Bool-cases (e.data0 == k)) [
          | inl eq ↦
              let same : e.data0 ≡ k = (==_iff _ _).0 eq in
              absurd (ground (arith, (sym n ∙ ap is_system same) ∙ t))
          | inr ne ↦ ne
        ]

    channel_below_system :
        e.data0 < 0xF0
        → Reads floats sdk velocity bus_by_port e
            (channel_output floats sdk (output_bus_index bus_by_port e.port_index) e)
    channel_below_system h = elim (Bool-cases (ltb e.data0 0x80)) [
      | inl lt ↦ channel_below (ltb→lt _ _ lt)
      | inr ge ↦
          let high : bit_and e.data0 0xF0 ≡ status_of (message_of e.data0) =
            omega (arith, high_nibble e.data0, status_of-message_of e.data0 (ground arith) h) in
          let low : bit_and e.data0 0x0F ≡ e.data0 % 16 = bit_and-mask 4 e.data0 in
          channel_at (message_of e.data0) high (omega (arith, high_nibble e.data0)) (omega arith)
    ]

  -- A MIDI 1.0 message becomes an event for the bus of its port that reads back as the message, if
  -- the port has a bus and each data byte that the status takes is one; else it is refused. The SDK
  -- numbers the controllers in its order, and velocities are read back exactly.
  pub midi1_output-Reads :
      (bus_by_port : List ℤ) (e : MidiEvent)
      → InOrder sdk
      → ReadsVelocity floats sdk velocity
      → e.data1 < 256
      → e.data2 < 256
      → Reads floats sdk velocity bus_by_port e (midi1_output floats sdk bus_by_port e)
  unfolding midi1_output
  midi1_output-Reads bus_by_port e o v h1 h2 =
      elim (Bool-cases (is_negative (output_bus_index bus_by_port e.port_index))) [
        | inl b ↦ rw b (ground arith)
        | inr b ↦ rw b (elim (Bool-cases (ltb e.data0 0xF0)) [
          | inl lt ↦ rw lt (channel_below_system bus_by_port e o v h1 h2 b (ltb→lt _ _ lt))
          | inr ge ↦ rw ge (elim (Bool-cases (is_system e.data0)) [
            | inl is ↦
                system_at bus_by_port e o v h1 h2 b (system_of e.data0)
                  (system_status-system_of e.data0 is)
            | inr isnt ↦ system_other bus_by_port e o v h1 h2 b (ground arith) isnt
          ])
        ])
      ]
