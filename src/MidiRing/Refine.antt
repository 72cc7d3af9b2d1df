-- ===== src/MidiRing/Refine.antt =====
-- A ring that holds messages behaves as the bounded queue of them.
use wrac_plugin_template.Prelude.{
  ℕ, ◌+◌, ◌%◌, ◌^◌, ◌≤◌, ◌<◌, ◌≡◌, ◌≢◌, refl, ap, ap₂, ◌∙◌, List, [], ◌∷◌, ◌++◌, true, Option, none,
  some, arith, length, get_or, u32, append_assoc,
}
use wrac_plugin_template.Prelude.Bits.{mod-mod-pow}
use wrac_plugin_template.Prelude.Circular.{cells, cells-mod}
use wrac_plugin_template.MidiRing.{
  MidiRing, size_bytes, size_of_bytes, copy_in, copy_out, try_push, next_size, next_status, pop,
  clear, run,
}
use wrac_plugin_template.MidiRing.Spec.{
  Op, put, get, wipe, peek, done, seen, weight, offer, poll, look, serve,
}
use wrac_plugin_template.MidiRing.Copy.{copy_out-cells, cells-copy_in, length-copy_in}
use wrac_plugin_template.MidiRing.Holds.{
  Holds, frames, frames-snoc, weight-snoc, AllLong-snoc, size_of_bytes-size_bytes, size-le,
  gap-weight, head-mod, oldest,
}

module _ (k : ℕ) (r : MidiRing) (ms : List (List ℕ)) (h : Holds k r ms) where
  -- The ring after a message `m` that fits: both copies, and the head moved on.
  abbrev pushed : List ℕ → MidiRing
  pushed m = record r {
    bytes =
        copy_in (2 ^ k) (u32 (r.head + 4)) m
          (copy_in (2 ^ k) r.head (size_bytes (length m)) r.bytes);
    head = u32 (r.head + u32 (length m + 4));
  }

  pushed-Holds :
      (m : List ℕ)
      → 0 < length m
      → weight ms + (4 + length m) ≤ 2 ^ k
      → Holds k (pushed m) (ms ++ m ∷ [])
  pushed-Holds m nonempty room = record {
    large = h.large;
    small = h.small;
    whole = length-copy_in k _ m _ ∙ length-copy_in k _ (size_bytes (length m)) _ ∙ h.whole;
    tail_in = h.tail_in;
    gap = omega (arith, h.gap, h.tail_in, size-le h, weight-snoc ms m);
    fits = omega (arith, weight-snoc ms m);
    stored = rw (weight-snoc ms m, frames-snoc ms m) body;
    long = AllLong-snoc ms m h.long nonempty;
  }
    where
      sized : List ℕ
      sized = copy_in (2 ^ k) r.head (size_bytes (length m)) r.bytes

      first : cells (2 ^ k) 0 sized r.tail (weight ms + 4) ≡ frames ms ++ size_bytes (length m)
      first =
          cells-copy_in k r.bytes r.tail (weight ms) r.head (size_bytes (length m)) h.whole
            (head-mod h) (omega arith)
          ∙ ap (λ (l : List ℕ). l ++ size_bytes (length m)) h.stored

      place : u32 (r.head + 4) % 2 ^ k ≡ (r.tail + (weight ms + 4)) % 2 ^ k
      place =
          ap (λ (n : ℕ). n % 2 ^ k) (omega (arith, h.gap))
          ∙ mod-mod-pow k 32 (r.tail + (weight ms + 4)) (omega (arith, h.small))

      second :
          cells
            (2 ^ k)
            0
            (copy_in (2 ^ k) (u32 (r.head + 4)) m sized)
            r.tail
            (weight ms + 4 + length m)
          ≡ cells (2 ^ k) 0 sized r.tail (weight ms + 4) ++ m
      second =
          cells-copy_in k sized r.tail (weight ms + 4) (u32 (r.head + 4)) m
            (length-copy_in k _ (size_bytes (length m)) _ ∙ h.whole) place (omega arith)

      body :
          cells
            (2 ^ k)
            0
            (copy_in (2 ^ k) (u32 (r.head + 4)) m sized)
            r.tail
            (weight ms + (4 + length m))
          ≡ frames ms ++ (size_bytes (length m) ++ m)
      body =
          let regroup : weight ms + (4 + length m) ≡ weight ms + 4 + length m = omega arith in
          rw regroup (
            second
            ∙ ap (λ (l : List ℕ). l ++ m) first
            ∙ append_assoc (frames ms) (size_bytes (length m)) m)

  -- `tryPush` takes a message exactly when it is not empty and fits whole beside those held.
  pub try_push_refines :
      (message : Option (List ℕ))
      → let (accepts, r') = try_push (2 ^ k) message r in
        let (wanted, ms') = offer (2 ^ k) message ms in (accepts ≡ wanted) × Holds k r' ms'
  unfolding try_push offer
  try_push_refines none = (refl, h)
  try_push_refines (some m) = ground (arith, gap-weight h, size-le h, h.fits, pushed-Holds m)

module _ (k : ℕ) (r : MidiRing) where
  next_size-empty : Holds k r [] → next_size (2 ^ k) r ≡ 0
  unfolding next_size
  next_size-empty h = ground (arith, h.gap, h.tail_in)

  module _ (m : List ℕ) (ms : List (List ℕ)) (h : Holds k r (m ∷ ms)) where
    moved : r.head ≢ r.tail
    moved e = omega (arith, e, gap-weight h, h.tail_in)

    -- The size of the next message is read back from in front of its bytes.
    next_size-oldest : next_size (2 ^ k) r ≡ length m
    unfolding next_size
    next_size-oldest = ground (arith, moved, sized)
      where
        sized : size_of_bytes (copy_out (2 ^ k) r.bytes r.tail 4) ≡ length m
        sized =
            ap size_of_bytes
              (copy_out-cells k r.bytes r.tail 4 h.whole (omega (arith, size-le h)) ∙ (oldest h).0)
            ∙ size_of_bytes-size_bytes (length m) (omega (arith, h.fits, size-le h))

    -- So are its bytes, from behind it.
    message-oldest : copy_out (2 ^ k) r.bytes (u32 (r.tail + 4)) (length m) ≡ m
    message-oldest =
        copy_out-cells k r.bytes (u32 (r.tail + 4)) (length m) h.whole (omega (arith, h.fits))
        ∙ cells-mod (2 ^ k) 0 r.bytes (u32 (r.tail + 4)) (r.tail + 4) (length m)
            (mod-mod-pow k 32 (r.tail + 4) (omega (arith, h.small)))
        ∙ (oldest h).1

    abbrev popped : MidiRing
    popped = record r { tail = u32 (u32 (r.tail + 4) + length m) }

    popped-Holds : Holds k popped ms
    popped-Holds = record {
      large = h.large;
      small = h.small;
      whole = h.whole;
      tail_in = omega arith;
      gap = omega (arith, h.gap);
      fits = omega (arith, h.fits);
      stored =
          cells-mod (2 ^ k) 0 r.bytes (u32 (u32 (r.tail + 4) + length m)) (r.tail + 4 + length m)
            (weight ms)
            (ap (λ (n : ℕ). n % 2 ^ k) {y = u32 (r.tail + 4 + length m)} (omega arith)
              ∙ mod-mod-pow k 32 (r.tail + 4 + length m) (omega (arith, h.small)))
          ∙ (oldest h).2;
      long = h.long.1;
    }

-- `pop` hands out the oldest message, whole, and leaves the rest.
pub pop_refines :
    (k : ℕ) (r : MidiRing) (ms : List (List ℕ))
    → Holds k r ms
    → let (out, r') = pop (2 ^ k) r in
      let (wanted, ms') = poll ms in (out ≡ wanted) × Holds k r' ms'
unfolding pop poll
pop_refines k r [] h = ground (arith, next_size-empty k r h)
pop_refines k r (m ∷ ms) h =
    rw (next_size-oldest k r m ms h)
      (ground (arith, message-oldest k r m ms h, popped-Holds k r m ms h, h.long))

status-oldest :
    (k : ℕ) (r : MidiRing) (m : List ℕ) (ms : List (List ℕ))
    → Holds k r (m ∷ ms)
    → get_or (copy_out (2 ^ k) r.bytes (u32 (r.tail + 4)) 1) 0 0 ≡ get_or m 0 0
status-oldest k r [] ms h = absurd (omega (arith, h.long))
status-oldest k r (x ∷ m) ms h =
    ap (λ (l : List ℕ). get_or l 0 0)
      (copy_out-cells k r.bytes (u32 (r.tail + 4)) 1 h.whole (omega (arith, size-le h)))
    ∙ ap (λ (i : ℕ). get_or r.bytes i 0) (mod-mod-pow k 32 (r.tail + 4) (omega (arith, h.small)))
    ∙ ap (λ (l : List ℕ). get_or l 0 0) (oldest h).1

-- `nextSize` and `nextStatus` tell the length and the first byte of the oldest message.
pub look_refines :
    (k : ℕ) (r : MidiRing) (ms : List (List ℕ))
    → Holds k r ms
    → next_size (2 ^ k) r ∷ next_status (2 ^ k) r ∷ [] ≡ look ms
unfolding next_status look
look_refines k r [] h = rw (next_size-empty k r h)
look_refines k r (m ∷ ms) h =
    rw (next_size-oldest k r m ms h, status-oldest k r m ms h) (ground (arith, h.long))

-- `clear` drops everything.
pub clear_refines :
    (k : ℕ) (r : MidiRing) (ms : List (List ℕ)) → Holds k r ms → Holds k (clear (2 ^ k) r) []
unfolding clear
clear_refines k r ms h = record {
  large = h.large;
  small = h.small;
  whole = h.whole;
  tail_in = omega (arith, h.gap);
  gap = omega (arith, h.gap);
  fits = omega arith;
  stored = refl;
  long = tt;
}

-- No sequence of calls tells a ring from the bounded queue of the messages that it holds.
pub ring_run_refines :
    (ops : List Op) (k : ℕ) (r : MidiRing) (ms : List (List ℕ))
    → Holds k r ms
    → run (2 ^ k) r ops ≡ serve (2 ^ k) ms ops
unfolding run serve
ring_run_refines [] k r ms h = refl
ring_run_refines (put m ∷ ops) k r ms h =
    let step = try_push_refines k r ms h m in
    ap₂ (λ b l. done b ∷ l) step.0 (ring_run_refines ops k _ _ step.1)
ring_run_refines (get ∷ ops) k r ms h =
    let step = pop_refines k r ms h in
    ap₂ (λ out l. seen out ∷ l) step.0 (ring_run_refines ops k _ _ step.1)
ring_run_refines (wipe ∷ ops) k r ms h =
    ap (◌∷◌ (done true)) (ring_run_refines ops k _ [] (clear_refines k r ms h))
ring_run_refines (peek ∷ ops) k r ms h =
    ap₂ (λ l rest. seen (some l) ∷ rest) (look_refines k r ms h) (ring_run_refines ops k r ms h)
