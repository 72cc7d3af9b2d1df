-- ===== src/MidiRing/Tests.antt =====
-- A ring of sixteen bytes whose counters are about to wrap.
use wrac_plugin_template.Prelude.{
  ◌-◌, ◌^◌, ◌≡◌, refl, List, [], ◌∷◌, some, none, true, false, arith, replicate,
}
use wrac_plugin_template.MidiRing.{
  MidiRing, write, copy_in, copy_out, try_push, next_size, next_status, pop, clear, run,
}
use wrac_plugin_template.MidiRing.Spec.{Op, put, get, wipe, peek, done, seen, serve}
use wrac_plugin_template.MidiRing.Holds.{Holds}
use wrac_plugin_template.MidiRing.Refine.{ring_run_refines}

abbrev about_to_wrap : MidiRing
about_to_wrap = record { bytes = replicate 16 0; head = 2 ^ 32 - 2; tail = 2 ^ 32 - 2 }

abbrev script : List Op
script =
    put (some (0x90 ∷ 60 ∷ 100 ∷ []))
    ∷ put none
    ∷ put (some (0xF8 ∷ []))
    ∷ put (some (0xF8 ∷ []))
    ∷ peek
    ∷ get
    ∷ get
    ∷ get
    ∷ put (some (1 ∷ []))
    ∷ wipe
    ∷ peek
    ∷ []

about_to_wrap-Holds : Holds 4 about_to_wrap []
about_to_wrap-Holds = record {
  large = omega arith;
  small = omega arith;
  whole = refl;
  tail_in = omega arith;
  gap = refl;
  fits = omega arith;
  stored = refl;
  long = tt;
}

run-script :
    run 16 about_to_wrap script
    ≡ done true
      ∷ done false
      ∷ done true
      ∷ done false
      ∷ seen (some (3 ∷ 0x90 ∷ []))
      ∷ seen (some (0x90 ∷ 60 ∷ 100 ∷ []))
      ∷ seen (some (0xF8 ∷ []))
      ∷ seen none
      ∷ done true
      ∷ done true
      ∷ seen (some (0 ∷ 0 ∷ []))
      ∷ []
unfolding run try_push pop next_size next_status clear copy_in copy_out write
run-script = refl

ring_run_refines_example : run 16 about_to_wrap script ≡ serve 16 [] script
ring_run_refines_example = ring_run_refines script 4 about_to_wrap [] about_to_wrap-Holds
