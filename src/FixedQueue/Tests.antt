-- ===== src/FixedQueue/Tests.antt =====
-- A queue of four cells whose stored elements go round the end of the array.
use wrac_plugin_template.Prelude.{ℕ, ◌≡◌, refl, List, [], ◌∷◌, arith}
use wrac_plugin_template.FixedQueue.{FixedQueue, try_push, pop, run}
use wrac_plugin_template.FixedQueue.Fifo.{Op, put, get, accepted, refused, taken, dry, serve}
use wrac_plugin_template.FixedQueue.Refine.{IsValid, contents, queue_run_refines}

abbrev wrapped : FixedQueue ℕ
wrapped = record { elements = 9 ∷ 0 ∷ 0 ∷ 8 ∷ []; head = 1; tail = 3 }

abbrev brimful : FixedQueue ℕ
brimful = record { elements = 9 ∷ 7 ∷ 0 ∷ 8 ∷ []; head = 2; tail = 3 }

abbrev script : List (Op ℕ)
script = put 7 ∷ put 6 ∷ get ∷ get ∷ get ∷ get ∷ []

wrapped-IsValid : IsValid 2 0 wrapped
wrapped-IsValid = omega arith

brimful-IsValid : IsValid 2 0 brimful
brimful-IsValid = omega arith

contents-wrapped : contents 2 0 wrapped ≡ 8 ∷ 9 ∷ []
contents-wrapped = refl

run-wrapped : run 4 0 wrapped script ≡ accepted ∷ refused ∷ taken 8 ∷ taken 9 ∷ taken 7 ∷ dry ∷ []
unfolding run try_push pop
run-wrapped = refl

queue_run_refines_example : run 4 0 wrapped script ≡ serve 3 (8 ∷ 9 ∷ []) script
queue_run_refines_example = queue_run_refines 2 0 script wrapped wrapped-IsValid
