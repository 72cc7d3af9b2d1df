-- ===== src/ClapProxy/Memento/Tests.antt =====
-- A state that is saved in two pieces and read in three, and what a careless use does.
use wrac_plugin_template.Prelude.{ℕ, List, [], ◌∷◌, none, some, ◌≡◌, refl}
use wrac_plugin_template.ClapProxy.Memento.{
  StateMemento, read, Op, clears, rewinds, sets_data, reads, writes, run,
}
use wrac_plugin_template.ClapProxy.Memento.Refine.{run-cursor_run}

abbrev fresh_memento : StateMemento
fresh_memento = record { mem = []; read_offset = 0 }

abbrev session_ops : List Op
session_ops =
    writes (1 ∷ 2 ∷ [])
    ∷ writes (3 ∷ [])
    ∷ reads 1
    ∷ rewinds
    ∷ reads 2
    ∷ reads 5
    ∷ reads 5
    ∷ clears
    ∷ writes (4 ∷ [])
    ∷ sets_data (6 ∷ 7 ∷ [])
    ∷ reads 1
    ∷ []

abbrev answers : List (ℕ × List ℕ)
answers =
    (2, [])
    ∷ (1, [])
    ∷ (1, 1 ∷ [])
    ∷ (2, 1 ∷ 2 ∷ [])
    ∷ (1, 3 ∷ [])
    ∷ (0, [])
    ∷ (1, [])
    ∷ (1, 6 ∷ [])
    ∷ []

run-session_ops : run session_ops fresh_memento ≡ some answers
unfolding run read
run-session_ops = refl

-- A read after a clear that nothing rewinds leaves the vector.
run-stale : run (writes (1 ∷ 2 ∷ []) ∷ reads 2 ∷ clears ∷ reads 1 ∷ []) fresh_memento ≡ none
unfolding run read
run-stale = refl

-- The sum of the offset and the size wraps around.
run-wraps : run (writes (1 ∷ 2 ∷ []) ∷ reads 1 ∷ reads 0xFFFFFFFFFFFFFFFF ∷ []) fresh_memento ≡ none
unfolding run read
run-wraps = refl

run-cursor_run_example : run session_ops fresh_memento ≡ some answers
run-cursor_run_example = run-cursor_run session_ops refl
