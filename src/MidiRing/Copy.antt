-- ===== src/MidiRing/Copy.antt =====
-- `copyIn` and `copyOut` write and read byte by byte round the end of the array.
use native.Mathlib.Nat.{one-le-pow, mod-eq_of_lt, mod-lt, mod-mod, mod_self, zero-mod, min-eq_left}
use native.Mathlib.Nat.{min-eq_right, mod-add-mod}
use native.Mathlib.Decide.{dec_le}
use wrac_plugin_template.Prelude.{
  ℕ, zero, suc, ◌+◌, ◌-◌, ◌%◌, ◌^◌, ◌≤◌, ◌<◌, min, ◌≡◌, refl, sym, ap, ap₂, ◌∙◌, List, [], ◌∷◌,
  ◌++◌, append-nil, append_assoc, arith, length, length-set, length-drop, get_or, set, take, drop,
  take-append-drop, length-take, take-all,
}
use wrac_plugin_template.Prelude.Bits.{bit_and-mask}
use wrac_plugin_template.Prelude.Circular.{cells, cells-mod, cells-add, cells-set_end}
use wrac_plugin_template.MidiRing.{write, read, copy_in, copy_out}

pub length-write : (buf : List ℕ) (i : ℕ) (xs : List ℕ) → length (write buf i xs) ≡ length buf
unfolding write
length-write buf i [] = refl
length-write buf i (x ∷ xs) = length-write (set buf i x) (i + 1) xs ∙ length-set buf i x

drop-get_or :
    (buf : List ℕ) (i : ℕ) → i < length buf → drop i buf ≡ get_or buf i 0 ∷ drop (i + 1) buf
drop-get_or [] i h = absurd (omega arith)
drop-get_or (x ∷ buf) zero h = refl
drop-get_or (x ∷ buf) (suc i) h =
    let e : suc i + 1 ≡ suc (i + 1) = omega arith in rw e (drop-get_or buf i (omega arith))

drop-all : (xs : List ℕ) → drop (length xs) xs ≡ []
drop-all [] = refl
drop-all (x ∷ xs) = drop-all xs

module _ (size : ℕ) where
  -- Byte by byte, with positions that run on.
  around : List ℕ → ℕ → List ℕ → List ℕ
  around buf p [] = buf
  around buf p (x ∷ xs) = around (set buf (p % size) x) (p + 1) xs

  around-append :
      (buf : List ℕ) (p : ℕ) (xs ys : List ℕ)
      → around buf p (xs ++ ys) ≡ around (around buf p xs) (p + length xs) ys
  unfolding around
  around-append buf p [] ys = let e : p + 0 ≡ p = omega arith in rw e
  around-append buf p (x ∷ xs) ys =
      let e : p + suc (length xs) ≡ p + 1 + length xs = omega arith in
      rw e (around-append (set buf (p % size) x) (p + 1) xs ys)

  around-mod :
      (buf : List ℕ) (p q : ℕ) (xs : List ℕ)
      → p % size ≡ q % size
      → around buf p xs ≡ around buf q xs
  unfolding around
  around-mod buf p q [] e = refl
  around-mod buf p q (x ∷ xs) e = rw e (
      around-mod (set buf (q % size) x) (p + 1) (q + 1) xs
        (sym (mod-add-mod p size 1) ∙ ap (λ (i : ℕ). (i + 1) % size) e ∙ mod-add-mod q size 1))

  write-around :
      (buf : List ℕ) (i : ℕ) (xs : List ℕ) → i + length xs ≤ size → write buf i xs ≡ around buf i xs
  unfolding write around
  write-around buf i [] h = refl
  write-around buf i (x ∷ xs) h =
      let e : i % size ≡ i = mod-eq_of_lt (omega arith) in
      rw e (write-around (set buf i x) (i + 1) xs (omega arith))

  -- Bytes that are written just behind a window extend it.
  cells-around :
      (buf : List ℕ) (t n : ℕ) (xs : List ℕ)
      → length buf ≡ size
      → n + length xs ≤ size
      → cells size 0 (around buf (t + n) xs) t (n + length xs) ≡ cells size 0 buf t n ++ xs
  unfolding around
  cells-around buf t n [] e h =
      let z : n + 0 ≡ n = omega arith in rw z (sym (append-nil (cells size 0 buf t n)))
  cells-around buf t n (x ∷ xs) e h =
      let shifted : t + n + 1 ≡ t + (n + 1) = omega arith in
      let longer : n + suc (length xs) ≡ n + 1 + length xs = omega arith in
      rw (shifted, longer)
        (cells-around (set buf ((t + n) % size) x) t (n + 1) xs
            (length-set buf ((t + n) % size) x ∙ e) (omega arith)
          ∙ ap (λ (l : List ℕ). l ++ xs) (cells-set_end size 0 buf t n x e (omega arith))
          ∙ append_assoc (cells size 0 buf t n) (x ∷ []) xs)

  read-cells :
      (buf : List ℕ) (i n : ℕ)
      → length buf ≡ size
      → i + n ≤ size
      → read buf i n ≡ cells size 0 buf i n
  read-cells buf i zero e h = refl
  read-cells buf i (suc n) e h =
      let index : i % size ≡ i = mod-eq_of_lt (omega arith) in
      rw (drop-get_or buf i (omega arith), index)
        (ap (◌∷◌ (get_or buf i 0)) (read-cells buf (i + 1) n e (omega arith)))

module _ (k : ℕ) where
  size_pos : 0 < 2 ^ k
  size_pos = one-le-pow k 2 (omega arith)

  write_fits :
      (o : ℕ) (xs buf : List ℕ)
      → o + length xs ≤ 2 ^ k
      → write (write buf o (take (length xs) xs)) 0 (drop (length xs) xs) ≡ around (2 ^ k) buf o xs
  unfolding write
  write_fits o xs buf h =
      rw (take-all (length xs) xs (omega arith), drop-all xs) (write-around (2 ^ k) buf o xs h)

  write_turns :
      (o f : ℕ) (xs buf : List ℕ)
      → o + f ≡ 2 ^ k
      → f ≤ length xs
      → length xs ≤ 2 ^ k
      → write (write buf o (take f xs)) 0 (drop f xs) ≡ around (2 ^ k) buf o xs
  write_turns o f xs buf e h small =
      write-around (2 ^ k) (write buf o (take f xs)) 0 (drop f xs) (omega (arith, length-drop f xs))
      ∙ around-mod (2 ^ k) (write buf o (take f xs)) 0 (o + length (take f xs)) (drop f xs)
          (rw (taken, e, mod_self, zero-mod))
      ∙ ap (λ (b : List ℕ). around (2 ^ k) b (o + length (take f xs)) (drop f xs))
          (write-around (2 ^ k) buf o (take f xs) (omega (arith, taken)))
      ∙ sym (around-append (2 ^ k) buf o (take f xs) (drop f xs))
      ∙ ap (around (2 ^ k) buf o) (take-append-drop f xs)
    where
      taken : length (take f xs) ≡ f
      taken = length-take f xs ∙ min-eq_left h

  -- The part up to the end of the array and the part from its start make up the copy round it.
  copy_in-around :
      (at : ℕ) (xs buf : List ℕ)
      → length xs ≤ 2 ^ k
      → copy_in (2 ^ k) at xs buf ≡ around (2 ^ k) buf at xs
  unfolding copy_in
  copy_in-around at xs buf h =
      rw (bit_and-mask k at)
        (parts ∙ around-mod (2 ^ k) buf (at % 2 ^ k) at xs (mod-mod at (2 ^ k)))
    where
      parts :
          write
            (write buf (at % 2 ^ k) (take (min (length xs) (2 ^ k - at % 2 ^ k)) xs))
            0
            (drop (min (length xs) (2 ^ k - at % 2 ^ k)) xs)
          ≡ around (2 ^ k) buf (at % 2 ^ k) xs
      parts = elim (dec_le (length xs) (2 ^ k - at % 2 ^ k)) [
        | yes fits ↦
            rw (min-eq_left fits)
              (write_fits (at % 2 ^ k) xs buf (omega (arith, mod-lt at size_pos)))
        | no turns ↦
            let most : 2 ^ k - at % 2 ^ k ≤ length xs = omega arith in
            rw (min-eq_right most) (
              write_turns (at % 2 ^ k) (2 ^ k - at % 2 ^ k) xs buf
                (omega (arith, mod-lt at size_pos)) most h)
      ]

  -- `copyOut` reads the cells from its position on.
  pub copy_out-cells :
      (buf : List ℕ) (at n : ℕ)
      → length buf ≡ 2 ^ k
      → n ≤ 2 ^ k
      → copy_out (2 ^ k) buf at n ≡ cells (2 ^ k) 0 buf at n
  unfolding copy_out
  copy_out-cells buf at n e h = rw (bit_and-mask k at) (
      ap₂ ◌++◌ (read-cells (2 ^ k) buf (at % 2 ^ k) first e (omega (arith, mod-lt at size_pos)))
        (read-cells (2 ^ k) buf 0 (n - first) e (omega arith) ∙ turn)
      ∙ sym (cells-add (2 ^ k) 0 buf (at % 2 ^ k) first (n - first))
      ∙ ap (cells (2 ^ k) 0 buf (at % 2 ^ k)) whole
      ∙ cells-mod (2 ^ k) 0 buf (at % 2 ^ k) at n (mod-mod at (2 ^ k)))
    where
      first : ℕ
      first = min n (2 ^ k - at % 2 ^ k)

      whole : first + (n - first) ≡ n
      whole = omega arith

      turn :
          cells (2 ^ k) 0 buf 0 (n - first) ≡ cells (2 ^ k) 0 buf (at % 2 ^ k + first) (n - first)
      turn = elim (dec_le n (2 ^ k - at % 2 ^ k)) [
        | yes fits ↦ let nothing : n - n ≡ 0 = omega arith in rw (min-eq_left fits, nothing)
        | no turns ↦
            let most : 2 ^ k - at % 2 ^ k ≤ n = omega arith in
            let all : at % 2 ^ k + (2 ^ k - at % 2 ^ k) ≡ 2 ^ k =
              omega (arith, mod-lt at size_pos) in
            rw (min-eq_right most, all)
              (cells-mod (2 ^ k) 0 buf 0 (2 ^ k) (n - (2 ^ k - at % 2 ^ k))
                (rw (mod_self, zero-mod)))
      ]

  -- What `copyIn` writes just behind a window, at any position that stands for that index, extends
  -- the window, and keeps the array's length.
  pub cells-copy_in :
      (buf : List ℕ) (t n at : ℕ) (xs : List ℕ)
      → length buf ≡ 2 ^ k
      → at % 2 ^ k ≡ (t + n) % 2 ^ k
      → n + length xs ≤ 2 ^ k
      → cells (2 ^ k) 0 (copy_in (2 ^ k) at xs buf) t (n + length xs)
        ≡ cells (2 ^ k) 0 buf t n ++ xs
  cells-copy_in buf t n at xs e p h =
      ap (λ (b : List ℕ). cells (2 ^ k) 0 b t (n + length xs))
        (copy_in-around at xs buf (omega arith) ∙ around-mod (2 ^ k) buf at (t + n) xs p)
      ∙ cells-around (2 ^ k) buf t n xs e h

  pub length-copy_in : (at : ℕ) (xs buf : List ℕ) → length (copy_in (2 ^ k) at xs buf) ≡ length buf
  unfolding copy_in
  length-copy_in at xs buf = length-write _ 0 _ ∙ length-write buf _ _
