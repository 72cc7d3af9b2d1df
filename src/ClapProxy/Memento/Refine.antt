-- ===== src/ClapProxy/Memento/Refine.antt =====
-- A memento is a list of bytes with a cursor.
use wrac_plugin_template.Prelude.{
  ℕ, zero, suc, ◌+◌, ◌-◌, ◌^◌, ◌≤◌, ◌<◌, min, Bool, true, false, not, ◌&&◌, ltb, leb, List, [], ◌∷◌,
  ◌++◌, length, take, drop, length-take, length-drop, length-append, take-all, none, some, ◌≡◌,
  refl, sym, ap, ap₂, ◌∙◌, inl, inr, arith, Bool-cases,
}
use wrac_plugin_template.ClapProxy.Memento.{
  StateMemento, clear, rewind, set_data, write, real_size, copied, read, Op, clears, rewinds,
  sets_data, reads, writes, and_then, run,
}

pub record Cursor : Type 0 where
  pub all : List ℕ
  pub left : List ℕ

-- What is left to read is written behind, and each read takes from the front.
abbrev pub cursor_run : List Op → Cursor → List (ℕ × List ℕ)
cursor_run [] c = []
cursor_run (clears ∷ ops) c = cursor_run ops (record { all = []; left = [] })
cursor_run (rewinds ∷ ops) c = cursor_run ops (record c { left = c.all })
cursor_run (sets_data bytes ∷ ops) c = cursor_run ops (record { all = bytes; left = bytes })
cursor_run (reads size ∷ ops) c =
    (length (take size c.left), take size c.left)
    ∷ cursor_run ops (record c { left = drop size c.left })
cursor_run (writes bytes ∷ ops) c =
    (length bytes, []) ∷ cursor_run ops (record { all = c.all ++ bytes; left = c.left ++ bytes })

-- No read stands between a clear and the next rewind or setData, and the size of each, with the
-- bytes that are stored, is a 64-bit number.
abbrev pub is_careful : Bool → ℕ → List Op → Bool
is_careful stale used [] = true
is_careful stale used (clears ∷ ops) = is_careful true 0 ops
is_careful stale used (rewinds ∷ ops) = is_careful false used ops
is_careful stale used (sets_data bytes ∷ ops) = is_careful false (length bytes) ops
is_careful stale used (reads size ∷ ops) =
    not stale && (ltb (used + size) (2 ^ 64) && is_careful stale used ops)
is_careful stale used (writes bytes ∷ ops) = is_careful stale (used + length bytes) ops

drop-nil : (n : ℕ) → drop {A = ℕ} n [] ≡ []
drop-nil zero = refl
drop-nil (suc n) = refl

drop-drop : (n m : ℕ) (xs : List ℕ) → drop n (drop m xs) ≡ drop (m + n) xs
drop-drop n zero xs = ap (λ k. drop k xs) (omega arith)
drop-drop n (suc m) [] = drop-nil n ∙ sym (drop-nil (suc m + n))
drop-drop n (suc m) (x ∷ xs) =
    let e : suc (m + n) ≡ suc m + n = omega arith in drop-drop n m xs ∙ ap (λ k. drop k (x ∷ xs)) e

drop-all : (n : ℕ) (xs : List ℕ) → length xs ≤ n → drop n xs ≡ []
drop-all zero [] h = refl
drop-all zero (x ∷ xs) h = absurd (omega (arith, h))
drop-all (suc n) [] h = refl
drop-all (suc n) (x ∷ xs) h = drop-all n xs (omega (arith, h))

drop-append_below : (n : ℕ) (xs ys : List ℕ) → n ≤ length xs → drop n (xs ++ ys) ≡ drop n xs ++ ys
drop-append_below zero xs ys h = refl
drop-append_below (suc n) [] ys h = absurd (omega (arith, h))
drop-append_below (suc n) (x ∷ xs) ys h = drop-append_below n xs ys (omega (arith, h))

take-min : (n : ℕ) (xs : List ℕ) → take (min n (length xs)) xs ≡ take n xs
take-min n xs = elim (Bool-cases (leb n (length xs))) [
  | inl e ↦ ap (λ k. take k xs) (ground (arith, e))
  | inr e ↦
      take-all (min n (length xs)) xs (ground (arith, e)) ∙ sym (take-all n xs (ground (arith, e)))
]

drop-min : (n : ℕ) (xs : List ℕ) → drop (min n (length xs)) xs ≡ drop n xs
drop-min n xs = elim (Bool-cases (leb n (length xs))) [
  | inl e ↦ ap (λ k. drop k xs) (ground (arith, e))
  | inr e ↦
      drop-all (min n (length xs)) xs (ground (arith, e)) ∙ sym (drop-all n xs (ground (arith, e)))
]

real_size-min :
    (size : ℕ) (s : StateMemento)
    → s.read_offset ≤ length s.mem
    → length s.mem + size < 2 ^ 64
    → real_size size s ≡ min size (length s.mem - s.read_offset)
real_size-min size s off fits = ground (arith, off, fits)

abbrev left_of : StateMemento → List ℕ
left_of s = drop s.read_offset s.mem

-- A read that fits takes from the front of what is left.
read-left :
    (size : ℕ) (s : StateMemento)
    → s.read_offset ≤ length s.mem
    → length s.mem + size < 2 ^ 64
    → read size s
      ≡ some (
        (length (take size (left_of s)), take size (left_of s)),
        record s { read_offset = s.read_offset + length (take size (left_of s)) },
      )
unfolding read
read-left size s off fits =
    let n = min size (length s.mem - s.read_offset) in
    let real : real_size size s ≡ n = real_size-min size s off fits in
    let taken : take n (left_of s) ≡ take size (left_of s) =
      ap (λ k. take (min size k) (left_of s)) (sym (length-drop s.read_offset s.mem))
      ∙ take-min size (left_of s) in
    let count : n ≡ length (take size (left_of s)) =
      omega (arith, length-take size (left_of s), length-drop s.read_offset s.mem) in
    ap (λ k. copied k s) real
    ∙ copied-lem n (omega (arith, off))
    ∙ ap₂
        (λ (k : ℕ) (bytes : List ℕ).
          some ((k, bytes), record s { read_offset = s.read_offset + k }))
        count taken
  where
    copied-lem :
        (n : ℕ)
        → s.read_offset + n ≤ length s.mem
        → copied n s ≡ some ((n, take n (left_of s)), record s { read_offset = s.read_offset + n })
    copied-lem zero h = ap (λ k. some ((0, []), record s { read_offset = k })) (omega arith)
    copied-lem (suc n) h =
        let e : leb (s.read_offset + suc n) (length s.mem) ≡ true = ground (arith, h) in
        let positive : ltb 0 (suc n) ≡ true = ground arith in rw (positive, e) refl

left-after :
    (size : ℕ) (s : StateMemento)
    → drop (s.read_offset + length (take size (left_of s))) s.mem ≡ drop size (left_of s)
left-after size s =
    sym (drop-drop (length (take size (left_of s))) s.read_offset s.mem)
    ∙ ap (λ k. drop k (left_of s)) (length-take size (left_of s))
    ∙ drop-min size (left_of s)

-- What the cursor says of a memento; after a clear, that of the offset is void.
abbrev Tracks : Bool → StateMemento → Cursor → Type 0
Tracks stale s c =
    (c.all ≡ s.mem) × (stale ≡ false → (s.read_offset ≤ length s.mem) × (c.left ≡ left_of s))

run_from-cursor :
    (ops : List Op) (stale : Bool) (s : StateMemento) (c : Cursor)
    → Tracks stale s c
    → is_careful stale (length s.mem) ops ≡ true
    → run ops s ≡ some (cursor_run ops c)
unfolding run
run_from-cursor [] stale s c t h = refl
run_from-cursor (clears ∷ ops) stale s c t h =
    run_from-cursor ops true (clear s) (record { all = []; left = [] })
      (refl, λ e. absurd (true-ne-false e)) h
  where
    true-ne-false : true ≡ false → ⊥
    true-ne-false e = ground (arith, e)
run_from-cursor (rewinds ∷ ops) stale s c t h =
    run_from-cursor ops false (rewind s) (record c { left = c.all }) (t.0, λ e. (omega arith, t.0))
      h
run_from-cursor (sets_data bytes ∷ ops) stale s c t h =
    run_from-cursor ops false (set_data bytes s) (record { all = bytes; left = bytes })
      (refl, λ e. (omega arith, refl)) h
run_from-cursor (writes bytes ∷ ops) stale s c t h =
    ap (λ later. elim later [ none ↦ none | some rest ↦ some ((length bytes, []) ∷ rest) ])
      (run_from-cursor ops stale (write bytes s).1
        (record { all = c.all ++ bytes; left = c.left ++ bytes })
        (
          ap (λ (xs : List ℕ). xs ++ bytes) t.0,
          λ e. (
            omega (arith, (t.1 e).0, length-append s.mem bytes),
            ap (λ (xs : List ℕ). xs ++ bytes) (t.1 e).1
                ∙ sym (drop-append_below s.read_offset s.mem bytes (t.1 e).0),
          ),
        )
        (ap (λ k. is_careful stale k ops) (length-append s.mem bytes) ∙ h))
run_from-cursor (reads size ∷ ops) true s c t h = ground (arith, h)
run_from-cursor (reads size ∷ ops) false s c t h =
    let off : s.read_offset ≤ length s.mem = (t.1 refl).0 in
    let fits : length s.mem + size < 2 ^ 64 = ground (arith, h) in
    let later : is_careful false (length s.mem) ops ≡ true = ground (arith, h) in
    let k = length (take size (left_of s)) in
    ap (and_then (run ops)) (read-left size s off fits)
    ∙ ap (λ rest. elim rest [ none ↦ none | some rs ↦ some ((k, take size (left_of s)) ∷ rs) ])
        (run_from-cursor ops false (record s { read_offset = s.read_offset + k })
          (record c { left = drop size (left_of s) })
          (
            t.0,
            λ e. (
              omega (arith, off, length-take size (left_of s), length-drop s.read_offset s.mem),
              sym (left-after size s),
            ),
          )
          later)
    ∙ ap
        (λ (l : List ℕ).
          some (
            (length (take size l), take size l) ∷ cursor_run ops (record c { left = drop size l })))
        (sym (t.1 refl).1)

-- A new memento answers any careful sequence of its operations as a list of bytes with a cursor does,
-- and copies nothing from outside its vector: a read returns as many of the bytes that are left as
-- are asked for, in the order in which they were written or set, and what is written comes after
-- them. A sequence is careful that does not read between a clear and the next rewind or setData, nor
-- asks for so much that the size and the stored bytes together are no 64-bit number.
pub run-cursor_run :
    (ops : List Op)
    → is_careful false 0 ops ≡ true
    → run ops (record { mem = []; read_offset = 0 })
      ≡ some (cursor_run ops (record { all = []; left = [] }))
run-cursor_run ops h =
    run_from-cursor ops false (record { mem = []; read_offset = 0 })
      (record { all = []; left = [] }) (refl, λ e. (omega arith, refl)) h
