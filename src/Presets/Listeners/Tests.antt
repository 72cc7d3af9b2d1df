-- ===== src/Presets/Listeners/Tests.antt =====
-- Three listeners, of which the second is removed before the crawl ends and the third comes while
-- the first is called.
use wrac_plugin_template.Prelude.{true, false, ◌&&◌, [], ◌∷◌, ◌≡◌, refl, arith}
use wrac_plugin_template.Presets.Listeners.{
  may_return, mem, crawling, calling, finished, is_calling, Listeners, fresh, erased, find_listener,
  registers, reads_flag, erases, returns, stores_flag, takes_ceiling, looks, call_ends, Reach,
  start, next,
}
use wrac_plugin_template.Presets.Listeners.Told.{finished-Told}
use wrac_plugin_template.Presets.Listeners.Removed.{count, removed-Silent}

abbrev two_left : Listeners
two_left = record {
  complete = false;
  next_token = 3;
  listeners = 1 ∷ [];
  phase = crawling;
  pending = [];
  called = [];
  leaving = 2 ∷ [];
  removed = 2 ∷ [];
  removed_in_call = [];
}

two_left-Reach : Reach fresh two_left
unfolding erased may_return
two_left-Reach =
    next
      (next
        (next (next (next (next start (registers _)) (reads_flag _ 1 refl)) (registers _))
          (reads_flag _ 2 refl))
        (erases _ 2 refl (omega arith)))
      (returns _ false 2 refl refl)

abbrev over : Listeners
over = record {
  complete = true;
  next_token = 4;
  listeners = 1 ∷ 3 ∷ [];
  phase = finished;
  pending = [];
  called = 3 ∷ 1 ∷ [];
  leaving = 2 ∷ [];
  removed = 2 ∷ [];
  removed_in_call = [];
}

over-Reach : Reach two_left over
unfolding erased find_listener
over-Reach =
    next
      (next
        (next
          (next
            (next (next (next start (stores_flag _ refl)) (takes_ceiling _ refl))
              (looks _ 0 2 refl))
            (registers _))
          (reads_flag _ 3 refl))
        (call_ends _ 1 2 refl))
      (looks _ 1 2 refl)

abbrev Reach-trans : {s t u : Listeners} → Reach s t → Reach t u → Reach s u
Reach-trans r start = r
Reach-trans r (next q step) = next (Reach-trans r q) step

finished-Told_example : mem over.called 3 ≡ true
finished-Told_example =
    finished-Told 3 (Reach-trans two_left-Reach over-Reach) refl (omega arith) (omega arith) refl
      refl

removed-Silent_example :
    (count 2 over.called ≡ count 2 two_left.called)
    × ((mem two_left.removed 2 && is_calling 2 over.phase) ≡ false)
removed-Silent_example = removed-Silent 2 two_left-Reach refl over-Reach

-- A listener that is registered between the store of the flag and the reading of the ceiling is
-- called twice: by its own thread, and in the loop.
abbrev called_twice : Listeners
called_twice = record {
  complete = true;
  next_token = 2;
  listeners = 1 ∷ [];
  phase = calling 1 1;
  pending = [];
  called = 1 ∷ 1 ∷ [];
  leaving = [];
  removed = [];
  removed_in_call = [];
}

called_twice-Reach : Reach fresh called_twice
unfolding erased find_listener
called_twice-Reach =
    next
      (next (next (next (next start (stores_flag _ refl)) (registers _)) (reads_flag _ 1 refl))
        (takes_ceiling _ refl))
      (looks _ 0 1 refl)

-- A listener that removes itself in its call: the removal returns while the call runs.
abbrev self_removed : Listeners
self_removed = record {
  complete = true;
  next_token = 2;
  listeners = [];
  phase = calling 1 1;
  pending = [];
  called = 1 ∷ [];
  leaving = 1 ∷ [];
  removed = [];
  removed_in_call = 1 ∷ [];
}

self_removed-Reach : Reach fresh self_removed
unfolding erased find_listener may_return
self_removed-Reach =
    next
      (next
        (next
          (next (next (next (next start (registers _)) (reads_flag _ 1 refl)) (stores_flag _ refl))
            (takes_ceiling _ refl))
          (looks _ 0 1 refl))
        (erases _ 1 refl (omega arith)))
      (returns _ true 1 refl refl)

-- To another thread it does not return before the call has ended.
waits_for_the_call : may_return false 1 (calling 1 1) ≡ false
unfolding may_return
waits_for_the_call = refl
