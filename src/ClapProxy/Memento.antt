-- ===== src/ClapProxy/Memento.antt =====
-- `StateMemento` of clap_wrapper_builder/clap-wrapper/src/clap_proxy.cpp and clap_proxy.h: the bytes
-- of a state, which a plugin writes and reads as streams. A byte is a number, and a buffer with its
-- size is a list.
pub mod Refine
mod Tests
use wrac_plugin_template.Prelude.{
  ℕ, ◌+◌, ◌-◌, ◌%◌, ◌^◌, Bool, true, false, ltb, leb, if◌then◌else◌, List, [], ◌∷◌, ◌++◌, length,
  take, drop, Option, none, some,
}

pub record StateMemento : Type 0 where
  pub mem : List ℕ
  pub read_offset : ℕ

abbrev pub u64 : ℕ → ℕ
u64 n = n % 2 ^ 64

abbrev pub clear : StateMemento → StateMemento
clear s = record s { mem = [] }

abbrev pub rewind : StateMemento → StateMemento
rewind s = record s { read_offset = 0 }

abbrev pub set_data : List ℕ → StateMemento → StateMemento
set_data bytes s = record { mem = bytes; read_offset = 0 }

abbrev pub write : List ℕ → StateMemento → ℕ × StateMemento
write bytes s = (length bytes, record s { mem = s.mem ++ bytes })

-- The size that is copied.
abbrev pub real_size : ℕ → StateMemento → ℕ
real_size size s =
    if leb (length s.mem) (u64 (s.read_offset + size))
    then u64 (length s.mem + (2 ^ 64 - s.read_offset))
    else size

-- What is returned and the bytes that are copied; `none` where the copy leaves the vector.
abbrev pub copied : ℕ → StateMemento → Option ((ℕ × List ℕ) × StateMemento)
copied n s =
    if ltb 0 n
    then (if leb (s.read_offset + n) (length s.mem)
        then some
            ((n, take n (drop s.read_offset s.mem)), record s { read_offset = s.read_offset + n })
        else none)
    else some ((n, []), s)

unfoldable pub read : ℕ → StateMemento → Option ((ℕ × List ℕ) × StateMemento)
read size s = copied (real_size size s) s

-- The operations, and what a sequence of them answers.
pub data Op : Type 0 where
  clears : Op
  rewinds : Op
  sets_data : List ℕ → Op
  reads : ℕ → Op
  writes : List ℕ → Op

abbrev pub and_then :
    {A : Type 0} → (StateMemento → Option (List A)) → Option (A × StateMemento) → Option (List A)
and_then later none = none
and_then later (some (a, s)) = elim (later s) [ none ↦ none | some rest ↦ some (a ∷ rest) ]

pub run : List Op → StateMemento → Option (List (ℕ × List ℕ))
unfolding read
run [] s = some []
run (clears ∷ ops) s = run ops (clear s)
run (rewinds ∷ ops) s = run ops (rewind s)
run (sets_data bytes ∷ ops) s = run ops (set_data bytes s)
run (reads size ∷ ops) s = and_then (run ops) (read size s)
run (writes bytes ∷ ops) s = let r = write bytes s in and_then (run ops) (some ((r.0, []), r.1))
