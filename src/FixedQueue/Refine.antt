-- ===== src/FixedQueue/Refine.antt =====
-- A queue of `Q = 2 ^ k` cells is a first-in first-out queue with room for `Q - 1` elements.
use native.Mathlib.Nat.{
  one-le-pow, add-mod_right, mod-eq_of_lt, mod-eq-sub-mod, mod-lt, mod_self, mod-mod,
}
use native.Mathlib.Decide.{dec_lt}
use wrac_plugin_template.Prelude.{
  ℕ, suc, ◌+◌, ◌-◌, ◌%◌, ◌^◌, ◌≤◌, ◌<◌, ◌≡◌, refl, sym, ap, ap₂, ◌∙◌, List, [], ◌∷◌, ◌++◌, ◌↔◌, ◌≢◌,
  ◌⊎◌, inl, inr, u32, arith, length, length-set, length-replicate, get_or, set,
}
use wrac_plugin_template.Prelude.Bits.{bit_and-mask, mod-mod-pow}
use wrac_plugin_template.Prelude.Circular.{cells, cells-mod, length-cells, cells-set_end}
use wrac_plugin_template.FixedQueue.{FixedQueue, fresh, push, try_push, pop, advance, run}
use wrac_plugin_template.FixedQueue.Fifo.{Op, put, get, offer, poll, serve}

module _ {T : Type 0} (k : ℕ) (value_init : T) where
  -- The array has its length and both indices lie in it. An index is a `uint32_t`.
  pub record IsValid (q : FixedQueue T) : Type 0 where
    pub small : k < 32
    pub whole : length q.elements ≡ 2 ^ k
    pub head_in : q.head < 2 ^ k
    pub tail_in : q.tail < 2 ^ k

  -- How many elements lie between the indices, and which.
  abbrev pub count : FixedQueue T → ℕ
  count q = (q.head + 2 ^ k - q.tail) % 2 ^ k

  abbrev pub contents : FixedQueue T → List T
  contents q = cells (2 ^ k) value_init q.elements q.tail (count q)

  size_pos : 0 < 2 ^ k
  size_pos = one-le-pow k 2 (omega arith)

  -- The mask is the remainder by the size, and the sum does not wrap before it is taken.
  advance-mod : (i : ℕ) → k < 32 → advance (2 ^ k) value_init i ≡ (i + 1) % 2 ^ k
  advance-mod i small = bit_and-mask k (u32 (i + 1)) ∙ mod-mod-pow k 32 (i + 1) (omega arith)

  pub advance-cases :
      (i : ℕ)
      → k < 32
      → i < 2 ^ k
      → ((i + 1 < 2 ^ k) × (advance (2 ^ k) value_init i ≡ i + 1))
        ⊎ ((i + 1 ≡ 2 ^ k) × (advance (2 ^ k) value_init i ≡ 0))
  advance-cases i small h = elim (dec_lt (i + 1) (2 ^ k)) [
    | yes p ↦ inl (p, advance-mod i small ∙ mod-eq_of_lt p)
    | no p ↦
        let top : i + 1 ≡ 2 ^ k = omega arith in
        inr (top, advance-mod i small ∙ ap (λ (n : ℕ). n % 2 ^ k) top ∙ mod_self (2 ^ k))
  ]

  -- The number of elements by the order of the indices; its last position is the head.
  pub count-cases :
      (q : FixedQueue T)
      → IsValid q
      → ((q.tail ≤ q.head) × (count q + q.tail ≡ q.head))
        ⊎ ((q.head < q.tail) × (count q + q.tail ≡ q.head + 2 ^ k))
  count-cases q v = elim (dec_lt q.head q.tail) [
    | yes p ↦
        inr (p, omega (arith, mod-eq_of_lt {n = q.head + 2 ^ k - q.tail} {m = 2 ^ k} (omega arith)))
    | no p ↦ inl (
      omega arith,
      omega (
        arith,
        mod-eq-sub-mod {n = q.head + 2 ^ k - q.tail} {m = 2 ^ k} (omega arith),
        mod-eq_of_lt {n = q.head + 2 ^ k - q.tail - 2 ^ k} {m = 2 ^ k} (omega arith),
      ),
    )
  ]

  count-end : (q : FixedQueue T) → IsValid q → (q.tail + count q) % 2 ^ k ≡ q.head
  count-end q v = elim (count-cases q v) [
    | inl (p, e) ↦
        let sum : q.tail + count q ≡ q.head = omega arith in rw sum (mod-eq_of_lt v.head_in)
    | inr (p, e) ↦
        let sum : q.tail + count q ≡ q.head + 2 ^ k = omega arith in
        rw sum (add-mod_right q.head (2 ^ k) ∙ mod-eq_of_lt v.head_in)
  ]

  pub count-lt : (q : FixedQueue T) → count q < 2 ^ k
  count-lt q = mod-lt (q.head + 2 ^ k - q.tail) size_pos

  -- `tryPush` and `push` keep the indices and the array in range.
  pub push-IsValid : (q : FixedQueue T) (x : T) → IsValid q → IsValid (push (2 ^ k) value_init x q)
  unfolding push
  push-IsValid q x v =
      ground
        (arith, length-set q.elements q.head x, advance-cases q.head v.small v.head_in, size_pos)

  -- A free cell: the element goes to the end of the window, and the window grows by one.
  pub store_at_head :
      (q : FixedQueue T) (x : T)
      → IsValid q
      → count q + 1 < 2 ^ k
      → contents (push (2 ^ k) value_init x q) ≡ contents q ++ x ∷ []
  unfolding push
  store_at_head q x v room =
      ap (cells (2 ^ k) value_init (set q.elements q.head x) q.tail) grown
      ∙ ap (λ (i : ℕ). cells (2 ^ k) value_init (set q.elements i x) q.tail (count q + 1))
          (sym (count-end q v))
      ∙ cells-set_end (2 ^ k) value_init q.elements q.tail (count q) x v.whole (omega arith)
    where
      grown : count (push (2 ^ k) value_init x q) ≡ count q + 1
      grown = omega (
        arith,
        count-cases q v,
        count-lt (push (2 ^ k) value_init x q),
        count-cases (push (2 ^ k) value_init x q) (push-IsValid q x v),
        advance-cases q.head v.small v.head_in,
      )

  pub fresh-IsValid : k < 32 → IsValid (fresh (2 ^ k) value_init)
  unfolding fresh
  fresh-IsValid small = record {
    small = small;
    whole = length-replicate (2 ^ k) value_init;
    head_in = size_pos;
    tail_in = size_pos;
  }

  pub try_push-IsValid :
      (q : FixedQueue T) (x : T) → IsValid q → IsValid (try_push (2 ^ k) value_init x q).1
  unfolding try_push
  try_push-IsValid q x v =
      ground
        (arith, length-set q.elements q.head x, advance-cases q.head v.small v.head_in, size_pos)

  pub pop-IsValid : (q : FixedQueue T) → IsValid q → IsValid (pop (2 ^ k) value_init q).1
  unfolding pop
  pop-IsValid q v = ground (arith, advance-cases q.tail v.small v.tail_in, size_pos)

  -- The test of `tryPush`: the head comes to stand at the tail exactly when `Q - 1` are stored.
  pub full_iff :
      (q : FixedQueue T)
      → IsValid q
      → (advance (2 ^ k) value_init q.head ≡ q.tail) ↔ (count q + 1 ≡ 2 ^ k)
  full_iff q v = ground (arith, advance-cases q.head v.small v.head_in, count-cases q v)

  -- `tryPush` offers its element to the queue of the stored elements, oldest first.
  pub try_push_refines :
      (q : FixedQueue T) (x : T)
      → IsValid q
      → let (done, q') = try_push (2 ^ k) value_init x q in
        (done, contents q') ≡ offer (2 ^ k - 1) x (contents q)
  unfolding try_push offer push
  try_push_refines q x v = ground (
    arith,
    full_iff q v,
    count-lt q,
    length-cells (2 ^ k) value_init q.elements q.tail (count q),
    store_at_head q x v,
  )

  -- The queue behind its oldest element.
  abbrev behind : FixedQueue T → FixedQueue T
  behind q = record q { tail = advance (2 ^ k) value_init q.tail }

  contents-behind :
      (q : FixedQueue T)
      → IsValid q
      → q.head ≢ q.tail
      → contents q ≡ get_or q.elements q.tail value_init ∷ contents (behind q)
  contents-behind q v ne =
      ap (cells (2 ^ k) value_init q.elements q.tail) shrunk
      ∙ ap₂ ◌∷◌ (ap (λ (i : ℕ). get_or q.elements i value_init) (mod-eq_of_lt v.tail_in)) (
          cells-mod (2 ^ k) value_init q.elements (q.tail + 1) (behind q).tail (count (behind q)) (
            sym (
              ap (λ (i : ℕ). i % 2 ^ k) (advance-mod q.tail v.small)
              ∙ mod-mod (q.tail + 1) (2 ^ k))))
    where
      behind-IsValid : IsValid (behind q)
      behind-IsValid = record {
        small = v.small;
        whole = v.whole;
        head_in = v.head_in;
        tail_in = ground (arith, advance-cases q.tail v.small v.tail_in, size_pos);
      }

      shrunk : count q ≡ suc (count (behind q))
      shrunk = omega (
        arith,
        ne,
        count-cases q v,
        count-lt q,
        count-lt (behind q),
        count-cases (behind q) behind-IsValid,
        advance-cases q.tail v.small v.tail_in,
      )

  -- The indices meet exactly when nothing is stored.
  pub empty_iff : (q : FixedQueue T) → IsValid q → (q.head ≡ q.tail) ↔ (contents q ≡ [])
  empty_iff q v = (
    λ e.
        let none_left : count q ≡ 0 = omega (arith, e, count-cases q v, count-lt q) in
        ap (cells (2 ^ k) value_init q.elements q.tail) none_left,
    λ e. omega (
      arith,
      ap length e,
      length-cells (2 ^ k) value_init q.elements q.tail (count q),
      count-cases q v,
    ),
  )

  -- `pop` polls it.
  pub pop_refines :
      (q : FixedQueue T)
      → IsValid q
      → let (out, q') = pop (2 ^ k) value_init q in (out, contents q') ≡ poll (contents q)
  unfolding pop poll
  pop_refines q v = ground (arith, empty_iff q v, contents-behind q v)

  -- No sequence of calls tells a valid queue from the bounded queue of its elements.
  pub queue_run_refines :
      (ops : List (Op T)) (q : FixedQueue T)
      → IsValid q
      → run (2 ^ k) value_init q ops ≡ serve (2 ^ k - 1) (contents q) ops
  unfolding run serve
  queue_run_refines [] q v = refl
  queue_run_refines (put x ∷ ops) q v =
      rw (queue_run_refines ops _ (try_push-IsValid q x v), ← try_push_refines q x v)
  queue_run_refines (get ∷ ops) q v =
      rw (queue_run_refines ops _ (pop-IsValid q v), ← pop_refines q v)
