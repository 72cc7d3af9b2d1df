-- ===== src/Standalone/MidiInput/Progress.antt =====
-- No message waits for ever, and none is cut.
use mathlib.Core.Path.{subst}
use mathlib.Core.List.{flatten, map-append}
use wrac_plugin_template.Prelude.{
  ℕ, zero, suc, ◌+◌, ◌-◌, ◌^◌, ◌≤◌, ltb, leb, Bool, true, false, ◌&&◌, List, [], ◌∷◌, ◌++◌, map,
  Option, some, none, length, ◌≡◌, refl, sym, ap, ap₂, ◌∙◌, inl, inr, arith, Bool-cases, All,
  All-append, length-append, replicate, length-replicate,
}
use wrac_plugin_template.MidiRing.Spec.{offer, weight}
use wrac_plugin_template.MidiRing.Holds.{Holds}
use wrac_plugin_template.Standalone.MidiInput.{
  Input, midi_data, arena_size, max_events_per_cycle, gather, input_events,
}
use wrac_plugin_template.Standalone.MidiInput.Block.{
  is_sysex, too_long, used_after, taken, waiting, form, shown, gather-IsBlock,
}
use wrac_plugin_template.Standalone.MidiInput.Flow.{
  Op, arrives, block, run, serve, arrive, passes, IsSized, run_refines,
}

taken-waiting :
    (room used : ℕ) (ms : List (List ℕ)) → taken room used ms ++ waiting room used ms ≡ ms
unfolding taken waiting
taken-waiting zero used ms = refl
taken-waiting (suc room) used [] = refl
taken-waiting (suc room) used (m ∷ ms) = elim (Bool-cases (too_long used m)) [
  | inl e ↦ rw e refl
  | inr e ↦ rw e (ap (◌∷◌ m) (taken-waiting room (used_after used m) ms))
]

-- A block takes a message where there is one.
waiting-less :
    (room : ℕ) (m : List ℕ) (ms : List (List ℕ))
    → length m ≤ arena_size
    → length (waiting (suc room) 0 (m ∷ ms)) ≤ length ms
unfolding waiting
waiting-less room m ms h =
    let fits : too_long 0 m ≡ false = ground arith in
    let rest : length (taken room (used_after 0 m) ms) + length (waiting room (used_after 0 m) ms)
        ≡ length ms =
      sym (length-append (taken room (used_after 0 m) ms) (waiting room (used_after 0 m) ms))
      ∙ ap length (taken-waiting room (used_after 0 m) ms) in
    rw fits (omega (arith, rest))

waiting-nil : (room used : ℕ) → waiting room used [] ≡ []
unfolding waiting
waiting-nil zero used = refl
waiting-nil (suc room) used = refl

-- As many blocks as messages wait, or more, and no message that comes, show the plugin every
-- message that waits, once and in their order.
pub blocks-Deliver :
    (n : ℕ) (has : Bool) (s : Input) (ms : List (List ℕ))
    → Holds 16 s.midi_to_audio ms
    → length ms ≤ n
    → flatten (run has s (replicate n block)) ≡ map form ms
unfolding flatten run input_events
blocks-Deliver zero has s [] h l = refl
blocks-Deliver zero has s (m ∷ ms) h l = absurd (omega arith)
blocks-Deliver (suc n) has s ms h l =
    let d = taken max_events_per_cycle 0 ms in
    let w = waiting max_events_per_cycle 0 ms in
    let b = gather-IsBlock max_events_per_cycle s.midi_to_audio ms [] h (omega arith) in
    let events = (gather max_events_per_cycle s.midi_to_audio []).0 in
    ap₂ (λ (x y : List (List ℕ)). x ++ y) (ap (λ (a : List ℕ). map (shown a) events) b.0 ∙ b.1)
      (blocks-Deliver n has (input_events s).2 w b.2 (fewer ms h l))
    ∙ sym (map-append form d w)
    ∙ ap (map form) (taken-waiting max_events_per_cycle 0 ms)
  where
    fewer :
        (ms : List (List ℕ))
        → Holds 16 s.midi_to_audio ms
        → length ms ≤ suc n
        → length (waiting max_events_per_cycle 0 ms) ≤ n
    fewer [] h l = rw (waiting-nil max_events_per_cycle 0) (omega arith)
    fewer (m ∷ ms) h l = omega (arith, waiting-less 255 m ms (omega (arith, h.fits)))

-- What the plugin sees of a message: three bytes, or a system exclusive one.
abbrev pub IsWhole : List ℕ → Type 0
IsWhole b = is_sysex b ≡ false → length b ≡ 3

-- A message that is let through.
abbrev pub IsFit : List ℕ → Type 0
IsFit m = is_sysex m ≡ false → length m ≤ 3

padded : (m : List ℕ) → length m ≤ 3 → length (midi_data m) ≡ 3
padded m l =
    omega
      (arith, length-append m (replicate (3 - length m) 0), length-replicate (3 - length m) (zero))

form-IsWhole : (m : List ℕ) → IsFit m → IsWhole (form m)
form-IsWhole m f = elim (Bool-cases (is_sysex m)) [
  | inl e ↦ rw e (λ n. cc)
  | inr e ↦ rw e (λ _. padded m (f e))
]

map-AreWhole : (ms : List (List ℕ)) → All IsFit ms → All IsWhole (map form ms)
map-AreWhole [] a = tt
map-AreWhole (m ∷ ms) a = (form-IsWhole m a.0, map-AreWhole ms a.1)

All-parts :
    (room used : ℕ) (ms : List (List ℕ))
    → All IsFit ms
    → All IsFit (taken room used ms) × All IsFit (waiting room used ms)
All-parts room used ms a =
    All-split (taken room used ms) (waiting room used ms)
      (subst (All IsFit) (sym (taken-waiting room used ms)) a)
  where
    All-split : (xs ys : List (List ℕ)) → All IsFit (xs ++ ys) → All IsFit xs × All IsFit ys
    All-split [] ys a = (tt, a)
    All-split (x ∷ xs) ys a = let r = All-split xs ys a.1 in ((a.0, r.0), r.1)

arrive-AreFit :
    (has : Bool) (m : Option (List ℕ)) (ms : List (List ℕ))
    → All IsFit ms
    → All IsFit (arrive has m ms)
unfolding arrive offer
arrive-AreFit has none ms a = a
arrive-AreFit has (some []) ms a = a
arrive-AreFit has (some (x ∷ m)) ms a = elim (Bool-cases (passes has (x ∷ m))) [
  | inl e ↦ rw e (offered (x ∷ m) ms a (fit (x ∷ m) e))
  | inr e ↦ rw e a
]
  where
    fit : (m : List ℕ) → passes has m ≡ true → IsFit m
    fit m e s = ground (arith, e, s)

    offered :
        (m : List ℕ) (ms : List (List ℕ))
        → All IsFit ms
        → IsFit m
        → All IsFit (offer (2 ^ 16) (some m) ms).1
    offered m ms a f =
        elim (Bool-cases (ltb 0 (length m) && leb (weight ms + (4 + length m)) (2 ^ 16))) [
          | inl e ↦ rw e (All-append IsFit ms (m ∷ []) a (f, tt))
          | inr e ↦ rw e a
        ]

serve-AreWhole :
    (ops : List Op) (has : Bool) (ms : List (List ℕ))
    → All IsFit ms
    → All (All IsWhole) (serve has ms ops)
unfolding serve
serve-AreWhole [] has ms a = tt
serve-AreWhole (arrives m ∷ ops) has ms a =
    serve-AreWhole ops has (arrive has m ms) (arrive-AreFit has m ms a)
serve-AreWhole (block ∷ ops) has ms a =
    let parts = All-parts max_events_per_cycle 0 ms a in
    (
      map-AreWhole (taken max_events_per_cycle 0 ms) parts.0,
      serve-AreWhole ops has (waiting max_events_per_cycle 0 ms) parts.1,
    )

-- Whatever comes, each event that is not system exclusive has three bytes: what is popped for it
-- does not run over the three bytes of its event.
pub run-AreWhole :
    (ops : List Op) (has : Bool) (s : Input)
    → IsSized ops
    → Holds 16 s.midi_to_audio []
    → All (All IsWhole) (run has s ops)
run-AreWhole ops has s z h =
    subst (All (All IsWhole)) (sym (run_refines ops has s [] z h)) (serve-AreWhole ops has [] tt)
