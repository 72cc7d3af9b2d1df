-- ===== src/SpinLock/Exclusion.antt =====
-- At most one thread is inside.
use wrac_plugin_template.Prelude.{
  ap, ℕ, zero, suc, ◌+◌, List, [], ◌∷◌, set, get_elem?, Option, some, none, ◌≡◌, arith,
  if◌then◌else◌,
}
use wrac_plugin_template.SpinLock.{
  lock_round, try_lock, unlock, Phase, outside, waiting, inside, Threads, Step, call_lock, spin,
  attempt, leave, Reach, start, next,
}

abbrev pub weight : Phase → ℕ
weight outside = 0
weight waiting = 0
weight inside = 1

abbrev pub count_inside : List Phase → ℕ
count_inside [] = 0
count_inside (p ∷ ps) = weight p + count_inside ps

-- The flag is set exactly while one thread is inside.
abbrev pub IsExclusive : Threads → Type 0
IsExclusive s = count_inside s.phases ≡ (if s.locked then 1 else 0)

abbrev weight_of : Option Phase → ℕ
weight_of none = 0
weight_of (some p) = weight p

count_inside-set :
    (ps : List Phase) (i : ℕ) (p q : Phase)
    → get_elem? ps i ≡ some p
    → count_inside (set ps i q) + weight p ≡ count_inside ps + weight q
count_inside-set [] i p q h = absurd (ground (arith, h))
count_inside-set (x ∷ xs) zero p q h = omega (arith, ap weight_of h)
count_inside-set (x ∷ xs) (suc i) p q h = omega (arith, count_inside-set xs i p q h)

Step-IsExclusive : {s t : Threads} → Step s t → IsExclusive s → IsExclusive t
unfolding lock_round try_lock unlock
Step-IsExclusive (call_lock s i h) e = ground (arith, count_inside-set s.phases i outside waiting h)
Step-IsExclusive (spin s i h) e = ground (
  arith,
  count_inside-set s.phases i waiting waiting h,
  count_inside-set s.phases i waiting inside h,
)
Step-IsExclusive (attempt s i h) e = ground (
  arith,
  count_inside-set s.phases i outside outside h,
  count_inside-set s.phases i outside inside h,
)
Step-IsExclusive (leave s i h) e = ground (arith, count_inside-set s.phases i inside outside h)

-- From threads of which at most one is inside, with the flag set exactly then, every sequence of
-- steps leads to such threads again.
pub Reach-IsExclusive : {s t : Threads} → IsExclusive s → Reach s t → IsExclusive t
Reach-IsExclusive e start = e
Reach-IsExclusive e (next r step) = Step-IsExclusive step (Reach-IsExclusive e r)
