-- ===== src/SpinLock/Tests.antt =====
-- Two threads, of which the second waits for the first.
use wrac_plugin_template.Prelude.{true, false, [], ◌∷◌, refl}
use wrac_plugin_template.SpinLock.{
  Threads, outside, waiting, inside, Reach, start, next, spin, call_lock, attempt, lock_round,
  try_lock,
}
use wrac_plugin_template.SpinLock.Exclusion.{IsExclusive, Reach-IsExclusive}

abbrev idle : Threads
idle = record { locked = false; phases = outside ∷ outside ∷ [] }

abbrev one_waits : Threads
one_waits = record { locked = true; phases = inside ∷ waiting ∷ [] }

one_waits_Reach : Reach idle one_waits
unfolding lock_round try_lock
one_waits_Reach = next (next (next start (attempt _ 0 refl)) (call_lock _ 1 refl)) (spin _ 1 refl)

Reach-IsExclusive_example : IsExclusive one_waits
Reach-IsExclusive_example = Reach-IsExclusive refl one_waits_Reach
