-- ===== src/FixedQueue/Fifo.antt =====
-- A first-in first-out queue that holds at most `room` elements, oldest first.
use wrac_plugin_template.Prelude.{
  ℕ, List, [], ◌∷◌, ◌++◌, Bool, true, false, Option, none, some, length, ltb, if◌then◌else◌,
}

pub data Op {ℓ} (T : Type ℓ) : Type ℓ where
  put : T → Op T
  get : Op T

pub data Reply {ℓ} (T : Type ℓ) : Type ℓ where
  accepted refused dry : Reply T
  taken : T → Reply T

module _ {ℓ} {T : Type ℓ} where
  unfoldable pub offer : ℕ → T → List T → Bool × List T
  offer room x xs = if ltb (length xs) room then (true, xs ++ x ∷ []) else (false, xs)

  unfoldable pub poll : List T → Option T × List T
  poll [] = (none, [])
  poll (x ∷ xs) = (some x, xs)

  unfoldable pub serve : ℕ → List T → List (Op T) → List (Reply T)
  serve room xs [] = []
  serve room xs (put x ∷ ops) =
      let (done, ys) = offer room x xs in (if done then accepted else refused) ∷ serve room ys ops
  serve room xs (get ∷ ops) =
      let (out, ys) = poll xs in elim out [ none ↦ dry | some x ↦ taken x ] ∷ serve room ys ops
