-- ===== src/MidiRing/Spec.antt =====
-- A queue of messages, oldest first. A message takes four bytes more than its own, and the queue
-- takes a message whole or not at all.
use wrac_plugin_template.Prelude.{
  ℕ, ◌+◌, List, [], ◌∷◌, ◌++◌, Bool, true, false, Option, none, some, length, get_or, leb, ltb,
  ◌&&◌, if◌then◌else◌,
}

pub data Op : Type 0 where
  put : Option (List ℕ) → Op
  get wipe peek : Op

pub data Reply : Type 0 where
  done : Bool → Reply
  seen : Option (List ℕ) → Reply

-- The bytes that the messages take in all.
abbrev pub weight : List (List ℕ) → ℕ
weight [] = 0
weight (m ∷ ms) = 4 + length m + weight ms

unfoldable pub offer : ℕ → Option (List ℕ) → List (List ℕ) → Bool × List (List ℕ)
offer room none ms = (false, ms)
offer room (some m) ms =
    if ltb 0 (length m) && leb (weight ms + (4 + length m)) room
    then (true, ms ++ m ∷ [])
    else (false, ms)

unfoldable pub poll : List (List ℕ) → Option (List ℕ) × List (List ℕ)
poll [] = (none, [])
poll (m ∷ ms) = (some m, ms)

-- The size of the next message and its first byte; 0 and 0 if there is none.
unfoldable pub look : List (List ℕ) → List ℕ
look [] = 0 ∷ 0 ∷ []
look (m ∷ ms) = length m ∷ get_or m 0 0 ∷ []

unfoldable pub serve : ℕ → List (List ℕ) → List Op → List Reply
serve room ms [] = []
serve room ms (put m ∷ ops) = let (b, ms') = offer room m ms in done b ∷ serve room ms' ops
serve room ms (get ∷ ops) = let (out, ms') = poll ms in seen out ∷ serve room ms' ops
serve room ms (wipe ∷ ops) = done true ∷ serve room [] ops
serve room ms (peek ∷ ops) = seen (some (look ms)) ∷ serve room ms ops
