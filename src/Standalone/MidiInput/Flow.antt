-- ===== src/Standalone/MidiInput/Flow.antt =====
-- Messages come and blocks are made, in any order.
use wrac_plugin_template.Prelude.{
  ℕ, ◌+◌, ◌^◌, ◌<◌, ◌==◌, leb, Bool, false, ◌&&◌, not, u32, if◌then◌else◌, List, [], ◌∷◌, map,
  Option, some, none, length, get_or, take, ◌≡◌, refl, sym, ap, ap₂, ◌∙◌, inl, inr, arith,
  Bool-cases, take-all,
}
use wrac_plugin_template.MidiRing.{try_push}
use wrac_plugin_template.MidiRing.Spec.{offer}
use wrac_plugin_template.MidiRing.Holds.{Holds}
use wrac_plugin_template.MidiRing.Refine.{try_push_refines}
use wrac_plugin_template.Standalone.MidiInput.{
  Input, max_events_per_cycle, gather, process_midi_message, input_events,
}
use wrac_plugin_template.Standalone.MidiInput.Block.{
  is_sysex, taken, waiting, form, shown, gather-IsBlock,
}

pub data Op : Type 0 where
  arrives : Option (List ℕ) → Op
  block : Op

-- What the plugin sees, block by block.
unfoldable pub run : Bool → Input → List Op → List (List (List ℕ))
run has s [] = []
run has s (arrives m ∷ ops) = run has (process_midi_message has m s) ops
run has s (block ∷ ops) =
    let step = input_events s in map (shown step.1) step.0 ∷ run has step.2 ops

-- A message that is let through: not active sensing, system exclusive for a plugin that takes MIDI,
-- or of at most three bytes.
abbrev pub passes : Bool → List ℕ → Bool
passes has m = not (get_or m 0 0 == 0xFE) && (if is_sysex m then has else leb (length m) 3)

-- The queue that the input is: what is let through and fits is appended, and the blocks take the
-- messages from its front.
unfoldable pub arrive : Bool → Option (List ℕ) → List (List ℕ) → List (List ℕ)
arrive has none ms = ms
arrive has (some []) ms = ms
arrive has (some (x ∷ m)) ms =
    if passes has (x ∷ m) then (offer (2 ^ 16) (some (x ∷ m)) ms).1 else ms

unfoldable pub serve : Bool → List (List ℕ) → List Op → List (List (List ℕ))
serve has ms [] = []
serve has ms (arrives m ∷ ops) = serve has (arrive has m ms) ops
serve has ms (block ∷ ops) =
    map form (taken max_events_per_cycle 0 ms) ∷ serve has (waiting max_events_per_cycle 0 ms) ops

-- The messages of a size that an `uint32_t` has.
abbrev pub IsSized : List Op → Type 0
IsSized [] = Unit {0}
IsSized (arrives none ∷ ops) = IsSized ops
IsSized (arrives (some m) ∷ ops) = (length m < 2 ^ 32) × IsSized ops
IsSized (block ∷ ops) = IsSized ops

refused-keeps :
    (m : List ℕ) (ms : List (List ℕ))
    → (offer (2 ^ 16) (some m) ms).0 ≡ false
    → (offer (2 ^ 16) (some m) ms).1 ≡ ms
unfolding offer
refused-keeps m ms e = ground arith

-- The end of `process_midi_message`.
abbrev pushed : Input → List ℕ → Input
pushed s m =
    let p = try_push (2 ^ 16) (some m) s.midi_to_audio in
    if p.0
    then record s { midi_to_audio = p.1 }
    else record s { midi_dropped = u32 (s.midi_dropped + 1) }

pushed-Holds :
    (m : List ℕ) (s : Input) (ms : List (List ℕ))
    → Holds 16 s.midi_to_audio ms
    → Holds 16 (pushed s m).midi_to_audio (offer (2 ^ 16) (some m) ms).1
pushed-Holds m s ms h =
    let p = try_push_refines 16 s.midi_to_audio ms h (some m) in
    elim (Bool-cases (try_push (2 ^ 16) (some m) s.midi_to_audio).0) [
      | inl e ↦ rw e p.1
      | inr e ↦ rw (e, refused-keeps m ms (sym p.0 ∙ e)) h
    ]

-- What `process_midi_message` does.
process-passed :
    (has : Bool) (x : ℕ) (m : List ℕ) (s : Input)
    → 1 + length m < 2 ^ 32
    → process_midi_message has (some (x ∷ m)) s
      ≡ (if passes has (x ∷ m) then pushed s (x ∷ m) else s)
unfolding process_midi_message
process-passed has x m s z =
    let whole : take (u32 (length (x ∷ m))) (x ∷ m) ≡ x ∷ m =
      take-all (u32 (length (x ∷ m))) (x ∷ m) (omega arith) in
    rw whole (ground arith)

pub arrive-Holds :
    (has : Bool) (m : Option (List ℕ)) (s : Input) (ms : List (List ℕ))
    → IsSized (arrives m ∷ [])
    → Holds 16 s.midi_to_audio ms
    → Holds 16 (process_midi_message has m s).midi_to_audio (arrive has m ms)
unfolding process_midi_message arrive
arrive-Holds has none s ms z h = h
arrive-Holds has (some []) s ms z h = h
arrive-Holds has (some (x ∷ m)) s ms z h =
    rw (process-passed has x m s (omega arith)) (elim (Bool-cases (passes has (x ∷ m))) [
      | inl e ↦ rw e (pushed-Holds (x ∷ m) s ms h)
      | inr e ↦ rw e h
    ])

-- The input refines the queue: whatever comes and whenever blocks are made, the plugin sees, block
-- by block, the messages that the queue gives, system exclusive ones whole. A message has fewer than
-- 2 ^ 32 bytes.
pub run_refines :
    (ops : List Op) (has : Bool) (s : Input) (ms : List (List ℕ))
    → IsSized ops
    → Holds 16 s.midi_to_audio ms
    → run has s ops ≡ serve has ms ops
unfolding run serve input_events
run_refines [] has s ms z h = refl
run_refines (arrives none ∷ ops) has s ms z h =
    run_refines ops has _ _ z (arrive-Holds has none s ms tt h)
run_refines (arrives (some m) ∷ ops) has s ms z h =
    run_refines ops has _ _ z.1 (arrive-Holds has (some m) s ms (z.0, tt) h)
run_refines (block ∷ ops) has s ms z h =
    let b = gather-IsBlock max_events_per_cycle s.midi_to_audio ms [] h (omega arith) in
    let events = (gather max_events_per_cycle s.midi_to_audio []).0 in
    ap₂ (λ (x : List (List ℕ)) (y : List (List (List ℕ))). x ∷ y)
      (ap (λ (a : List ℕ). map (shown a) events) b.0 ∙ b.1) (run_refines ops has _ _ z b.2)
