-- ===== src/MidiRing/Holds.antt =====
-- What it is for a ring to hold a list of messages.
use native.Mathlib.Nat.{pow-le-pow_right}
use wrac_plugin_template.Prelude.{
  ℕ, ◌+◌, ◌-◌, ◌%◌, ◌^◌, ◌≤◌, ◌<◌, ◌≡◌, refl, sym, ap, ◌∙◌, List, [], ◌∷◌, ◌++◌, append_assoc,
  append-nil, arith, length, u32, length-replicate,
}
use wrac_plugin_template.Prelude.Bits.{mod-mod-pow}
use wrac_plugin_template.Prelude.Circular.{cells, cells-add, length-cells}
use wrac_plugin_template.MidiRing.{MidiRing, fresh, size_bytes, size_of_bytes}
use wrac_plugin_template.MidiRing.Spec.{weight}

-- A message is stored as its length and its bytes.
abbrev pub frame : List ℕ → List ℕ
frame m = size_bytes (length m) ++ m

abbrev pub frames : List (List ℕ) → List ℕ
frames [] = []
frames (m ∷ ms) = size_bytes (length m) ++ (m ++ frames ms)

abbrev pub AllLong : List (List ℕ) → Type 0
AllLong [] = Unit {0}
AllLong (m ∷ ms) = (0 < length m) × AllLong ms

pub frames-snoc : (ms : List (List ℕ)) (m : List ℕ) → frames (ms ++ m ∷ []) ≡ frames ms ++ frame m
frames-snoc [] m = ap (λ (l : List ℕ). size_bytes (length m) ++ l) (append-nil m)
frames-snoc (x ∷ ms) m =
    ap (λ (l : List ℕ). size_bytes (length x) ++ l)
      (ap (λ (l : List ℕ). x ++ l) (frames-snoc ms m) ∙ sym (append_assoc x (frames ms) (frame m)))

pub weight-snoc :
    (ms : List (List ℕ)) (m : List ℕ) → weight (ms ++ m ∷ []) ≡ weight ms + (4 + length m)
weight-snoc [] m = omega arith
weight-snoc (x ∷ ms) m = omega (arith, weight-snoc ms m)

pub AllLong-snoc :
    (ms : List (List ℕ)) (m : List ℕ) → AllLong ms → 0 < length m → AllLong (ms ++ m ∷ [])
AllLong-snoc [] m a h = (h, tt)
AllLong-snoc (x ∷ ms) m a h = (a.0, AllLong-snoc ms m a.1 h)

-- The length that is written is the length that is read.
pub size_of_bytes-size_bytes : (n : ℕ) → n < 2 ^ 32 → size_of_bytes (size_bytes n) ≡ n
size_of_bytes-size_bytes n h = omega arith

-- Two lists in front of others, as long as one another, are equal if the wholes are.
pub append_inj :
    (xs ys : List ℕ) (us vs : List ℕ)
    → length xs ≡ length ys
    → xs ++ us ≡ ys ++ vs
    → (xs ≡ ys) × (us ≡ vs)
append_inj [] [] us vs e p = (refl, p)
append_inj [] (y ∷ ys) us vs e p = absurd (omega arith)
append_inj (x ∷ xs) [] us vs e p = absurd (omega arith)
append_inj (x ∷ xs) (y ∷ ys) us vs e p = ground (arith, append_inj xs ys us vs)

-- The counters are a `uint32_t` each and run on; their difference is the weight of the messages,
-- whose frames lie from the tail on.
pub record Holds (k : ℕ) (r : MidiRing) (ms : List (List ℕ)) : Type 0 where
  pub large : 2 ≤ k
  pub small : k < 32
  pub whole : length r.bytes ≡ 2 ^ k
  pub tail_in : r.tail < 2 ^ 32
  pub gap : r.head ≡ u32 (r.tail + weight ms)
  pub fits : weight ms ≤ 2 ^ k
  pub stored : cells (2 ^ k) 0 r.bytes r.tail (weight ms) ≡ frames ms
  pub long : AllLong ms

pub fresh-Holds : (k : ℕ) → 2 ≤ k → k < 32 → Holds k (fresh (2 ^ k)) []
unfolding fresh
fresh-Holds k large small = record {
  large = large;
  small = small;
  whole = length-replicate (2 ^ k) 0;
  tail_in = omega arith;
  gap = refl;
  fits = omega arith;
  stored = refl;
  long = tt;
}

module _ {k : ℕ} {r : MidiRing} {ms : List (List ℕ)} (h : Holds k r ms) where
  pub size-le : (2 ^ k ≤ 2 ^ 31) × (4 ≤ 2 ^ k)
  size-le = (
    pow-le-pow_right {n = 2} (omega arith) {i = k} {j = 31} (omega (arith, h.small)),
    pow-le-pow_right {n = 2} (omega arith) {i = 2} {j = k} h.large,
  )

  -- The wrapped difference of the counters.
  pub gap-weight : u32 (r.head + 2 ^ 32 - r.tail) ≡ weight ms
  gap-weight = omega (arith, h.gap, h.tail_in, h.fits, size-le)

  -- The head stands for the index behind the stored frames.
  pub head-mod : r.head % 2 ^ k ≡ (r.tail + weight ms) % 2 ^ k
  head-mod =
      ap (λ (n : ℕ). n % 2 ^ k) h.gap
      ∙ mod-mod-pow k 32 (r.tail + weight ms) (omega (arith, h.small))

module _ {k : ℕ} {r : MidiRing} {m : List ℕ} {ms : List (List ℕ)} (h : Holds k r (m ∷ ms)) where
  pub oldest :
      (cells (2 ^ k) 0 r.bytes r.tail 4 ≡ size_bytes (length m))
      × (cells (2 ^ k) 0 r.bytes (r.tail + 4) (length m) ≡ m)
      × (cells (2 ^ k) 0 r.bytes (r.tail + 4 + length m) (weight ms) ≡ frames ms)
  oldest = (outer.0, inner.0, inner.1)
    where
      outer :
          (cells (2 ^ k) 0 r.bytes r.tail 4 ≡ size_bytes (length m))
          × (cells (2 ^ k) 0 r.bytes (r.tail + 4) (length m + weight ms) ≡ m ++ frames ms)
      outer =
          append_inj (cells (2 ^ k) 0 r.bytes r.tail 4) (size_bytes (length m))
            (cells (2 ^ k) 0 r.bytes (r.tail + 4) (length m + weight ms)) (m ++ frames ms) refl
            (sym (cells-add (2 ^ k) 0 r.bytes r.tail 4 (length m + weight ms))
              ∙ ap (cells (2 ^ k) 0 r.bytes r.tail) (omega arith)
              ∙ h.stored)

      inner :
          (cells (2 ^ k) 0 r.bytes (r.tail + 4) (length m) ≡ m)
          × (cells (2 ^ k) 0 r.bytes (r.tail + 4 + length m) (weight ms) ≡ frames ms)
      inner =
          append_inj (cells (2 ^ k) 0 r.bytes (r.tail + 4) (length m)) m
            (cells (2 ^ k) 0 r.bytes (r.tail + 4 + length m) (weight ms)) (frames ms)
            (length-cells (2 ^ k) 0 r.bytes (r.tail + 4) (length m))
            (sym (cells-add (2 ^ k) 0 r.bytes (r.tail + 4) (length m) (weight ms)) ∙ outer.1)
