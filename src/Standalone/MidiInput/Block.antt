-- ===== src/Standalone/MidiInput/Block.antt =====
-- The events of a block are the oldest messages of the ring, in their order.
use wrac_plugin_template.Prelude.{
  ℕ, zero, suc, ◌+◌, ◌^◌, ◌≤◌, ◌==◌, ltb, Bool, true, false, ◌&&◌, if◌then◌else◌, List, [], ◌∷◌,
  ◌++◌, map, some, length, get_or, take, drop, ◌≡◌, refl, sym, ap, ap₂, ◌∙◌, inl, inr, arith,
  Bool-cases, append-nil, append_assoc, length-append, take-append, drop-append,
}
use mathlib.Core.Path.{subst}
use wrac_plugin_template.MidiRing.{MidiRing, next_size, next_status, pop}
use wrac_plugin_template.MidiRing.Spec.{poll, look}
use wrac_plugin_template.MidiRing.Holds.{Holds}
use wrac_plugin_template.MidiRing.Refine.{pop_refines, look_refines}
use wrac_plugin_template.Standalone.MidiInput.{Event, midi, sysex, midi_data, arena_size, gather}

abbrev pub is_sysex : List ℕ → Bool
is_sysex m = get_or m 0 0 == 0xF0

-- The messages that a block takes, with those that wait for the next: as many as there is room for,
-- up to a system exclusive message that the rest of the arena is too small for.
abbrev pub too_long : ℕ → List ℕ → Bool
too_long used m = is_sysex m && ltb arena_size (used + length m)

abbrev pub used_after : ℕ → List ℕ → ℕ
used_after used m = if is_sysex m then used + length m else used

unfoldable pub taken : ℕ → ℕ → List (List ℕ) → List (List ℕ)
taken zero used ms = []
taken (suc room) used [] = []
taken (suc room) used (m ∷ ms) =
    let rest = taken room (used_after used m) ms in if too_long used m then [] else m ∷ rest

unfoldable pub waiting : ℕ → ℕ → List (List ℕ) → List (List ℕ)
waiting zero used ms = ms
waiting (suc room) used [] = []
waiting (suc room) used (m ∷ ms) =
    let rest = waiting room (used_after used m) ms in if too_long used m then m ∷ ms else rest

-- What the plugin sees of a message, and of an event.
abbrev pub form : List ℕ → List ℕ
form m = if is_sysex m then m else midi_data m

abbrev pub shown : List ℕ → Event → List ℕ
shown arena (midi bytes) = bytes
shown arena (sysex at size) = take size (drop at arena)

abbrev pub sysex_bytes : List (List ℕ) → List ℕ
sysex_bytes [] = []
sysex_bytes (m ∷ ms) = if is_sysex m then m ++ sysex_bytes ms else sysex_bytes ms

-- The first message of a ring that holds some.
module _ (r : MidiRing) (m : List ℕ) (ms : List (List ℕ)) (h : Holds 16 r (m ∷ ms)) where
  sized : next_size (2 ^ 16) r ≡ length m
  unfolding look
  sized = ap (λ (l : List ℕ). get_or l 0 0) (look_refines 16 r (m ∷ ms) h)

  status : next_status (2 ^ 16) r ≡ get_or m 0 0
  unfolding look
  status = ap (λ (l : List ℕ). get_or l 1 0) (look_refines 16 r (m ∷ ms) h)

  out : (pop (2 ^ 16) r).0 ≡ some m
  unfolding poll
  out = (pop_refines 16 r (m ∷ ms) h).0

  left : Holds 16 (pop (2 ^ 16) r).1 ms
  unfolding poll
  left = (pop_refines 16 r (m ∷ ms) h).1

  module _ (room : ℕ) (arena : List ℕ) (a : length arena ≤ arena_size) where
    abbrev after : MidiRing
    after = (pop (2 ^ 16) r).1

    gather-long : too_long (length arena) m ≡ true → gather (suc room) r arena ≡ ([], arena, r)
    unfolding gather
    gather-long e = rw (sized, status, out) (ground (arith, h.long, h.fits, e))

    gather-sysex :
        is_sysex m ≡ true
        → too_long (length arena) m ≡ false
        → gather (suc room) r arena ≡ (
          sysex (length arena) (length m) ∷ (gather room after (arena ++ m)).0,
          (gather room after (arena ++ m)).1,
          (gather room after (arena ++ m)).2,
        )
    unfolding gather
    gather-sysex s e = rw (sized, status, out) (ground (arith, h.long, h.fits, s, e))

    gather-short :
        is_sysex m ≡ false
        → gather (suc room) r arena ≡ (
          midi (midi_data m) ∷ (gather room after arena).0,
          (gather room after arena).1,
          (gather room after arena).2,
        )
    unfolding gather
    gather-short s = rw (sized, status, out) (ground (arith, h.long, s))

-- A block whose events show the messages `d`, which leaves `w` in the ring.
abbrev pub IsBlock :
    List ℕ → List (List ℕ) → List (List ℕ) → List Event × List ℕ × MidiRing → Type 0
IsBlock a d w block =
    (block.1 ≡ a ++ sysex_bytes d)
    × (map (shown (a ++ sysex_bytes d)) block.0 ≡ map form d)
    × Holds 16 block.2 w

IsBlock-sysex :
    (a m : List ℕ) (d w : List (List ℕ)) (block : List Event × List ℕ × MidiRing)
    → is_sysex m ≡ true
    → IsBlock (a ++ m) d w block
    → IsBlock a (m ∷ d) w (sysex (length a) (length m) ∷ block.0, block.1, block.2)
IsBlock-sysex a m d w block s h =
    let more : sysex_bytes (m ∷ d) ≡ m ++ sysex_bytes d = rw s refl in
    let whole : a ++ (m ++ sysex_bytes d) ≡ a ++ sysex_bytes (m ∷ d) = ap (◌++◌ a) (sym more) in
    let same : (a ++ m) ++ sysex_bytes d ≡ a ++ sysex_bytes (m ∷ d) =
      append_assoc a m (sysex_bytes d) ∙ whole in
    let plain : m ≡ form m = rw s refl in
    let content : take (length m) (drop (length a) (a ++ sysex_bytes (m ∷ d))) ≡ m =
      ap (λ (b : List ℕ). take (length m) (drop (length a) b)) (sym whole)
      ∙ ap (take (length m)) (drop-append (length a) a (m ++ sysex_bytes d) refl)
      ∙ take-append (length m) m (sysex_bytes d) refl in
    (
      h.0 ∙ same,
      ap₂ (λ (b : List ℕ) (bs : List (List ℕ)). b ∷ bs) (content ∙ plain)
          (ap (λ (b : List ℕ). map (shown b) block.0) (sym same) ∙ h.1),
      h.2,
    )

IsBlock-short :
    (a m : List ℕ) (d w : List (List ℕ)) (block : List Event × List ℕ × MidiRing)
    → is_sysex m ≡ false
    → IsBlock a d w block
    → IsBlock a (m ∷ d) w (midi (midi_data m) ∷ block.0, block.1, block.2)
IsBlock-short a m d w block s h =
    let same : a ++ sysex_bytes d ≡ a ++ sysex_bytes (m ∷ d) = rw s refl in
    let padded : midi_data m ≡ form m = rw s refl in
    (
      h.0 ∙ same,
      ap₂ (λ (b : List ℕ) (bs : List (List ℕ)). b ∷ bs) padded
          (ap (λ (b : List ℕ). map (shown b) block.0) (sym same) ∙ h.1),
      h.2,
    )

gather-none :
    (room : ℕ) (r : MidiRing) (a : List ℕ) → Holds 16 r [] → gather (suc room) r a ≡ ([], a, r)
unfolding gather look
gather-none room r a h =
    let empty : next_size (2 ^ 16) r ≡ 0 =
      ap (λ (l : List ℕ). get_or l 0 0) (look_refines 16 r [] h) in
    rw empty refl

used-sysex : (a m : List ℕ) → is_sysex m ≡ true → length (a ++ m) ≡ used_after (length a) m
used-sysex a m s = rw s (length-append a m)

fits-sysex :
    (a m : List ℕ)
    → is_sysex m ≡ true
    → too_long (length a) m ≡ false
    → length (a ++ m) ≤ arena_size
fits-sysex a m s e = ground (arith, length-append a m)

-- The steps of the two lists.
module _ (room used : ℕ) (m : List ℕ) (ms : List (List ℕ)) where
  stops :
      too_long used m ≡ true
      → (taken (suc room) used (m ∷ ms) ≡ []) × (waiting (suc room) used (m ∷ ms) ≡ m ∷ ms)
  unfolding taken waiting
  stops e = (rw e refl, rw e refl)

  goes_on :
      (used' : ℕ)
      → too_long used m ≡ false
      → used_after used m ≡ used'
      → (taken (suc room) used (m ∷ ms) ≡ m ∷ taken room used' ms)
        × (waiting (suc room) used (m ∷ ms) ≡ waiting room used' ms)
  unfolding taken waiting
  goes_on used' e n = (rw e (ap (λ u. m ∷ taken room u ms) n), rw e (ap (λ u. waiting room u ms) n))

short-fits : (used : ℕ) (m : List ℕ) → is_sysex m ≡ false → too_long used m ≡ false
short-fits used m s = rw s refl

IsBlock-eq :
    (a : List ℕ) {d d' w w' : List (List ℕ)} {b b' : List Event × List ℕ × MidiRing}
    → d' ≡ d
    → w' ≡ w
    → b' ≡ b
    → IsBlock a d w b
    → IsBlock a d' w' b'
IsBlock-eq a {d = d} {w = w} {w' = w'} {b' = b'} p q e h =
    subst (λ x. IsBlock a x w' b') (sym p)
      (subst (λ x. IsBlock a d x b') (sym q) (subst (λ x. IsBlock a d w x) (sym e) h))

pub gather-IsBlock :
    (room : ℕ) (r : MidiRing) (ms : List (List ℕ)) (a : List ℕ)
    → Holds 16 r ms
    → length a ≤ arena_size
    → IsBlock a (taken room (length a) ms) (waiting room (length a) ms) (gather room r a)
gather-IsBlock zero r ms a h l = unfold gather taken waiting in (sym (append-nil a), refl, h)
gather-IsBlock (suc room) r [] a h l =
    unfold taken waiting in rw (gather-none room r a h) (sym (append-nil a), refl, h)
gather-IsBlock (suc room) r (m ∷ ms) a h l = elim (Bool-cases (is_sysex m)) [
  | inl s ↦ elim (Bool-cases (too_long (length a) m)) [
    | inl e ↦
        let (t, w) = stops room (length a) m ms e in
        IsBlock-eq a t w (gather-long r m ms h room a l e) (sym (append-nil a), refl, h)
    | inr e ↦
        let (t, w) = goes_on room (length a) m ms (length (a ++ m)) e (sym (used-sysex a m s)) in
        let r' = after r m ms h room a l in
        IsBlock-eq a t w (gather-sysex r m ms h room a l s e) (
          IsBlock-sysex a m (taken room (length (a ++ m)) ms) (waiting room (length (a ++ m)) ms)
            (gather room r' (a ++ m)) s
            (gather-IsBlock room r' ms (a ++ m) (left r m ms h) (fits-sysex a m s e)))
  ]
  | inr s ↦
      let (t, w) =
        goes_on room (length a) m ms (length a) (short-fits (length a) m s) (rw s refl) in
      let r' = after r m ms h room a l in
      IsBlock-eq a t w (gather-short r m ms h room a l s) (
        IsBlock-short a m (taken room (length a) ms) (waiting room (length a) ms) (gather room r' a)
          s (gather-IsBlock room r' ms a (left r m ms h) l))
]
