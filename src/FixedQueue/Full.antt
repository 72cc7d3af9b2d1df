-- ===== src/FixedQueue/Full.antt =====
-- What `push`, which makes no test, does to the stored elements.
use wrac_plugin_template.Prelude.{
  ◌==◌, if◌then◌else◌, ℕ, ◌+◌, ◌^◌, ◌≡◌, [], ◌∷◌, ◌++◌, length, arith,
}
use wrac_plugin_template.Prelude.Circular.{length-cells}
use wrac_plugin_template.FixedQueue.{FixedQueue, push}
use wrac_plugin_template.FixedQueue.Refine.{
  IsValid, count-lt, contents, count, push-IsValid, store_at_head, full_iff, empty_iff,
}

module _ {T : Type 0} (k : ℕ) (value_init : T) where
  -- `push` appends while fewer than `Q - 1` elements are stored. With `Q - 1` of them the head comes
  -- to stand at the tail, and the queue reads as empty.
  pub contents-push :
      (q : FixedQueue T) (x : T)
      → IsValid k value_init q
      → contents k value_init (push (2 ^ k) value_init x q) ≡ (
          if length (contents k value_init q) + 1 == 2 ^ k
          then []
          else contents k value_init q ++ x ∷ [])
  unfolding push
  contents-push q x v = ground (
    arith,
    length-cells (2 ^ k) value_init q.elements q.tail (count k value_init q),
    count-lt k value_init q,
    full_iff k value_init q v,
    store_at_head k value_init q x v,
    (empty_iff k value_init (push (2 ^ k) value_init x q) (push-IsValid k value_init q x v)).0,
  )
