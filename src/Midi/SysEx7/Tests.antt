-- ===== src/Midi/SysEx7/Tests.antt =====
-- A message of one packet, and one of three.
use wrac_plugin_template.Prelude.{ℕ, ◌≡◌, refl, List, [], ◌∷◌, some, arith}
use wrac_plugin_template.Midi.SysEx7.{
  Packet, Reassembler, fresh, packet, pack_loop, pack_sys_ex7, feed_all, reset,
}
use wrac_plugin_template.Midi.SysEx7.RoundTrip.{
  IsBytes, framing, Delivers, reassemble_pack, round_trip,
}

abbrev body : List ℕ
body = 1 ∷ 2 ∷ 3 ∷ 4 ∷ 5 ∷ 6 ∷ 7 ∷ 8 ∷ 9 ∷ 10 ∷ 11 ∷ 12 ∷ 13 ∷ []

abbrev interrupted : Reassembler
interrupted = record { content = 99 ∷ []; framed = [] }

pack-short :
    pack_sys_ex7 (some (0xF0 ∷ 0x7E ∷ 0x11 ∷ 0xF7 ∷ []))
    ≡ some (record { word0 = 0x3002_7E11; word1 = 0 } ∷ [])
unfolding pack_sys_ex7 pack_loop packet
pack-short = refl

pack-body :
    pack_sys_ex7 (some (framing body))
    ≡ some (
        record { word0 = 0x3016_0102; word1 = 0x0304_0506 }
        ∷ record { word0 = 0x3026_0708; word1 = 0x090A_0B0C }
        ∷ record { word0 = 0x3031_0D00; word1 = 0 }
        ∷ [])
unfolding pack_sys_ex7 pack_loop packet
pack-body = refl

feed_all-reset : feed_all [] (reset interrupted) ≡ ([], fresh)
unfolding feed_all reset fresh
feed_all-reset = refl

body-IsBytes : IsBytes body
body-IsBytes = omega arith

reassemble_pack_example :
    Delivers (2 ∷ 3 ∷ []) interrupted (pack_sys_ex7 (some (2 ∷ 3 ∷ 0xF7 ∷ [])))
reassemble_pack_example = reassemble_pack 2 (3 ∷ 0xF7 ∷ []) interrupted (omega arith)

round_trip_example :
    (packets : List Packet) × (pack_sys_ex7 (some (framing body)) ≡ some packets)
    × ((feed_all packets interrupted).0 ≡ framing body ∷ [])
round_trip_example = round_trip body interrupted body-IsBytes
