-- ===== src/FixedQueue.antt =====
-- The class template `fixedqueue<T, Q>` of
-- clap_wrapper_builder/clap-wrapper/src/detail/shared/fixedqueue.h. A method returns the new queue.
-- `Fifo` is what it is used as; `Refine` proves that it is one.
pub mod Fifo
pub mod Refine
pub mod Full
mod Tests
use wrac_plugin_template.Prelude.{
  ℕ, ◌+◌, ◌-◌, ◌==◌, bit_and, List, [], ◌∷◌, Bool, true, false, Option, none, some, get_or, set,
  replicate, u32, if◌then◌else◌,
}
use wrac_plugin_template.FixedQueue.Fifo.{Op, put, get, Reply, accepted, refused, taken, dry}

pub record FixedQueue {ℓ} (T : Type ℓ) : Type ℓ where
  pub elements : List T
  pub head : ℕ
  pub tail : ℕ

-- `Q` is the template argument, and `value_init` the element `T{}` that the array starts from.
module _ {ℓ} {T : Type ℓ} (Q : ℕ) (value_init : T) where
  abbrev pub wrap_mask : ℕ
  wrap_mask = Q - 1

  pub fresh : FixedQueue T
  fresh = record { elements = replicate Q value_init; head = 0; tail = 0 }

  abbrev pub advance : ℕ → ℕ
  advance i = bit_and (u32 (i + 1)) wrap_mask

  pub push : T → FixedQueue T → FixedQueue T
  push val q = record q { elements = set q.elements q.head val; head = advance q.head }

  pub try_push : T → FixedQueue T → Bool × FixedQueue T
  try_push val q =
      let next = advance q.head in
      if next == q.tail
      then (false, q)
      else (true, record q { elements = set q.elements q.head val; head = next })

  -- The option is what goes out through `out`, which `false` leaves alone.
  pub pop : FixedQueue T → Option T × FixedQueue T
  pop q =
      if q.head == q.tail
      then (none, q)
      else (some (get_or q.elements q.tail value_init), record q { tail = advance q.tail })

  -- The calls of a client in order, with what each returns.
  pub run : FixedQueue T → List (Op T) → List (Reply T)
  run q [] = []
  run q (put x ∷ ops) =
      let (done, q') = try_push x q in (if done then accepted else refused) ∷ run q' ops
  run q (get ∷ ops) =
      let (out, q') = pop q in elim out [ none ↦ dry | some x ↦ taken x ] ∷ run q' ops
