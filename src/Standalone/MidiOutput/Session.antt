-- ===== src/Standalone/MidiOutput/Session.antt =====
-- What reaches the ports between a start and a stop of the sending thread.
use wrac_plugin_template.Prelude.{
  ℕ, zero, suc, ◌^◌, ◌≤◌, ◌<◌, Bool, true, false, ◌||◌, ◌&&◌, ◌==◌, ◌*◌, Bool-cases, inl, inr,
  if◌then◌else◌, List, [], ◌∷◌, ◌++◌, Option, some, none, length, get_or, take, ◌≡◌, refl, ap, ap₂,
  ◌∙◌, arith,
}
use wrac_plugin_template.MidiRing.{MidiRing, next_size, pop, clear}
use wrac_plugin_template.MidiRing.Spec.{offer, poll, look, weight}
use wrac_plugin_template.MidiRing.Holds.{Holds}
use wrac_plugin_template.MidiRing.Refine.{
  try_push_refines, pop_refines, look_refines, clear_refines,
}
use wrac_plugin_template.Standalone.MidiOutput.{
  Event, midi, sysex, note, other, short_midi_message_size, in_range, note_message,
  output_event_push, is_note_on, send_all, all_notes_off, push_all, rounds_from, midi_output_loop,
}

-- The message that is queued for an event.
unfoldable pub message_of : Event → Option (List ℕ)
message_of (midi bytes) =
    let size = short_midi_message_size (get_or bytes 0 0) in
    if size == 0 then none else some (take size bytes)
message_of (sysex buffer) = buffer
message_of (note on channel key velocity) =
    if in_range channel 15 && in_range key 127
    then some (note_message on channel key velocity)
    else none
message_of other = none

-- The queue after some events: a message that does not fit is dropped.
unfoldable pub queued : List (List ℕ) → List Event → List (List ℕ)
queued ms [] = ms
queued ms (e ∷ es) = queued (offer (2 ^ 16) (message_of e) ms).1 es

abbrev pub heard : Bool → List (List ℕ) → Bool
heard on [] = on
heard on (m ∷ ms) = heard (is_note_on m || on) ms

unfoldable pub sent : Bool → List (List Event) → List (List ℕ)
sent on [] = if on then all_notes_off 16 else []
sent on (es ∷ more) = queued [] es ++ sent (heard on (queued [] es)) more

push-Holds :
    (e : Event) (r : MidiRing) (ms : List (List ℕ))
    → Holds 16 r ms
    → Holds 16 (output_event_push true e r).1 (offer (2 ^ 16) (message_of e) ms).1
unfolding output_event_push message_of
push-Holds (midi bytes) r ms h =
    elim (Bool-cases (short_midi_message_size (get_or bytes 0 0) == 0)) [
      | inl e ↦ rw e (unfold offer in h)
      | inr e ↦ rw e (
          (try_push_refines 16 r ms h
            (some (take (short_midi_message_size (get_or bytes 0 0)) bytes))).1)
    ]
push-Holds (sysex buffer) r ms h = (try_push_refines 16 r ms h buffer).1
push-Holds (note on channel key velocity) r ms h =
    elim (Bool-cases (in_range channel 15 && in_range key 127)) [
      | inl e ↦ rw e ((try_push_refines 16 r ms h (some (note_message on channel key velocity))).1)
      | inr e ↦ rw e (unfold offer in h)
    ]
push-Holds other r ms h = unfold offer in h

push_all-Holds :
    (es : List Event) (r : MidiRing) (ms : List (List ℕ))
    → Holds 16 r ms
    → Holds 16 (push_all es r) (queued ms es)
unfolding queued
push_all-Holds [] r ms h = h
push_all-Holds (e ∷ es) r ms h = push_all-Holds es _ _ (push-Holds e r ms h)

send-none : (n : ℕ) (on : Bool) (r : MidiRing) → Holds 16 r [] → send_all (suc n) on r ≡ ([], on, r)
unfolding send_all look
send-none n on r h =
    let empty : next_size (2 ^ 16) r ≡ 0 =
      ap (λ (l : List ℕ). get_or l 0 0) (look_refines 16 r [] h) in
    rw empty refl

send-more :
    (n : ℕ) (on : Bool) (r : MidiRing) (m : List ℕ) (ms : List (List ℕ))
    → Holds 16 r (m ∷ ms)
    → let rest = send_all n (is_note_on m || on) (pop (2 ^ 16) r).1 in
      send_all (suc n) on r ≡ (m ∷ rest.0, rest.1, rest.2)
unfolding send_all look poll
send-more n on r m ms h =
    let sized : next_size (2 ^ 16) r ≡ length m =
      ap (λ (l : List ℕ). get_or l 0 0) (look_refines 16 r (m ∷ ms) h) in
    let out : (pop (2 ^ 16) r).0 ≡ some m = (pop_refines 16 r (m ∷ ms) h).0 in
    rw (sized, out) (ground (arith, h.long))

-- With a round for each message all are sent, and the ring is empty.
send_all-Sends :
    (ms : List (List ℕ)) (n : ℕ) (on : Bool) (r : MidiRing)
    → Holds 16 r ms
    → length ms < n
    → ((send_all n on r).0 ≡ ms)
      × ((send_all n on r).1 ≡ heard on ms)
      × Holds 16 (send_all n on r).2 []
unfolding poll
send_all-Sends ms zero on r h l = absurd (omega arith)
send_all-Sends [] (suc n) on r h l = rw (send-none n on r h) (refl, refl, h)
send_all-Sends (m ∷ ms) (suc n) on r h l =
    let rest =
      send_all-Sends ms n (is_note_on m || on) (pop (2 ^ 16) r).1 (pop_refines 16 r (m ∷ ms) h).1
        (omega arith) in
    rw (send-more n on r m ms h) (ap (λ (x : List (List ℕ)). m ∷ x) rest.0, rest.1, rest.2)

length-le-weight : (ms : List (List ℕ)) → 4 * length ms ≤ weight ms
length-le-weight [] = omega arith
length-le-weight (m ∷ ms) = omega (arith, length-le-weight ms)

rounds_from-Sends :
    (rounds : List (List Event)) (on : Bool) (r : MidiRing)
    → Holds 16 r []
    → (rounds_from on r rounds).0 ≡ sent on rounds
unfolding rounds_from sent
rounds_from-Sends [] on r h = refl
rounds_from-Sends (es ∷ more) on r h =
    let full = push_all-Holds es r [] h in
    let s =
      send_all-Sends (queued [] es) (2 ^ 16) on (push_all es r) full
        (omega (arith, length-le-weight (queued [] es), full.fits)) in
    ap₂ (λ (x y : List (List ℕ)). x ++ y) s.0
      (rounds_from-Sends more (send_all (2 ^ 16) on (push_all es r)).1
          (send_all (2 ^ 16) on (push_all es r)).2 s.2
        ∙ ap (λ b. sent b more) s.1)

-- Whatever a ring still holds from before, the thread sends, in each of its rounds, the messages of
-- the events that were queued for it and fit, once and in their order, and at its end, if a note-on
-- was among all of these, an all-notes-off on each of the sixteen channels.
pub midi_output_loop-Sends :
    (rounds : List (List Event)) (r : MidiRing) (stale : List (List ℕ))
    → Holds 16 r stale
    → (midi_output_loop r rounds).0 ≡ sent false rounds
unfolding midi_output_loop
midi_output_loop-Sends rounds r stale h =
    rounds_from-Sends rounds false (clear (2 ^ 16) r) (clear_refines 16 r stale h)
