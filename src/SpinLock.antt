-- ===== src/SpinLock.antt =====
-- `SpinLock` of clap_wrapper_builder/clap-wrapper/src/detail/shared/spinlock.h. An operation on the
-- atomic flag is one step; any number of threads take such steps in any order.
pub mod Exclusion
mod Tests
use wrac_plugin_template.Prelude.{
  ℕ, Bool, true, false, not, List, [], ◌∷◌, set, get_elem?, Option, some, ◌≡◌, if◌then◌else◌,
}

-- `locked_.exchange(true)`: what it held, and what it holds.
abbrev pub exchange_true : Bool → Bool × Bool
exchange_true locked = (locked, true)

-- One round of the loop of `lock`, with whether the loop ends, and `try_lock`.
pub lock_round : Bool → Bool × Bool
lock_round locked = let (was, now) = exchange_true locked in (not was, now)

pub try_lock : Bool → Bool × Bool
try_lock locked = let (was, now) = exchange_true locked in (not was, now)

pub unlock : Bool → Bool
unlock locked = false

-- Where a thread is: outside, in the loop of `lock`, or between `lock` and `unlock`.
pub data Phase : Type 0 where
  outside : Phase
  waiting : Phase
  inside : Phase

pub record Threads : Type 0 where
  pub locked : Bool
  pub phases : List Phase

-- The threads after thread `i` has moved and the flag has changed.
abbrev pub moved : Threads → ℕ → Phase → Bool → Threads
moved s i p locked = record { locked = locked; phases = set s.phases i p }

-- The steps of thread `i`.
pub data Step : Threads → Threads → Type 0 where
  call_lock :
      (s : Threads) (i : ℕ)
      → get_elem? s.phases i ≡ some outside
      → Step s (moved s i waiting s.locked)
  spin :
      (s : Threads) (i : ℕ)
      → get_elem? s.phases i ≡ some waiting
      → Step s
          (moved s i (if (lock_round s.locked).0 then inside else waiting) (lock_round s.locked).1)
  attempt :
      (s : Threads) (i : ℕ)
      → get_elem? s.phases i ≡ some outside
      → Step s (moved s i (if (try_lock s.locked).0 then inside else outside) (try_lock s.locked).1)
  leave :
      (s : Threads) (i : ℕ)
      → get_elem? s.phases i ≡ some inside
      → Step s (moved s i outside (unlock s.locked))

pub data Reach (s : Threads) : Threads → Type 0 where
  start : Reach s s
  next : {t u : Threads} → Reach s t → Step t u → Reach s u
