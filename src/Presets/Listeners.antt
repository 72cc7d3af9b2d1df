-- ===== src/Presets/Listeners.antt =====
-- The completion listeners: `addCompletionListener`, `removeCompletionListener` and `finish`. What a
-- thread does between taking and giving back the lock of the listeners is one step, and so is each
-- reading of the flag and each call of a listener; the crawl thread and any number of others take
-- such steps in any order.
pub mod Tokens
pub mod Told
pub mod Removed
mod Tests
use wrac_plugin_template.Prelude.{
  ℕ, zero, suc, ◌+◌, ◌-◌, Bool, true, false, ◌&&◌, ◌||◌, not, ◌==◌, ltb, leb, ◌<◌, if◌then◌else◌,
  List, [], ◌∷◌, ◌++◌, Option, none, some, ◌≡◌,
}

abbrev pub mem : List ℕ → ℕ → Bool
mem [] t = false
mem (x ∷ xs) t = x == t || mem xs t

-- Where the crawl thread is: before `finish`, past the store of the flag, at the head of the loop
-- with `last` and `ceiling`, in the call of a listener, or past the loop.
pub data Phase : Type 0 where
  crawling : Phase
  flagged : Phase
  looking : ℕ → ℕ → Phase
  calling : ℕ → ℕ → Phase
  finished : Phase

-- `pending` are the tokens that are in the list and whose `addCompletionListener` has not read the
-- flag; `called` are those whose listeners were called, once for each call, when it begins; `leaving`
-- are those that a removal has erased; `removed` those whose removal has returned to another thread
-- than the one that calls the listeners, and `removed_in_call` those whose removal has returned to it.
pub record Listeners : Type 0 where
  pub complete : Bool
  pub next_token : ℕ
  pub listeners : List ℕ
  pub phase : Phase
  pub pending : List ℕ
  pub called : List ℕ
  pub leaving : List ℕ
  pub removed : List ℕ
  pub removed_in_call : List ℕ

abbrev pub fresh : Listeners
fresh = record {
  complete = false;
  next_token = 1;
  listeners = [];
  phase = crawling;
  pending = [];
  called = [];
  leaving = [];
  removed = [];
  removed_in_call = [];
}

pub erased : ℕ → List ℕ → List ℕ
erased t [] = []
erased t (x ∷ xs) = let rest = erased t xs in if x == t then rest else x ∷ rest

-- The first listener above `last` and not above `ceiling`.
pub find_listener : ℕ → ℕ → List ℕ → Option ℕ
find_listener last ceiling [] = none
find_listener last ceiling (x ∷ xs) =
    if ltb last x && leb x ceiling then some x else find_listener last ceiling xs

-- The first half of `addCompletionListener`, and the second for a token.
abbrev pub register : Listeners → Listeners
register s = record s {
  next_token = s.next_token + 1;
  listeners = s.listeners ++ s.next_token ∷ [];
  pending = s.next_token ∷ s.pending;
}

abbrev pub read_flag : ℕ → Listeners → Listeners
read_flag t s = record s {
  pending = erased t s.pending;
  called = if s.complete then t ∷ s.called else s.called;
}

-- What `removeCompletionListener` does when it has taken the lock.
abbrev pub erase : ℕ → Listeners → Listeners
erase t s = record s { listeners = erased t s.listeners; leaving = t ∷ s.leaving }

abbrev pub is_calling : ℕ → Phase → Bool
is_calling t (calling u ceiling) = u == t
is_calling t crawling = false
is_calling t flagged = false
is_calling t (looking last ceiling) = false
is_calling t finished = false

-- Whether `removeCompletionListener` is past its wait: it waits for a call of the listener, unless it
-- runs in the thread of that call.
unfoldable pub may_return : (is_in_call_thread : Bool) → ℕ → Phase → Bool
may_return is_in_call_thread t phase = not (is_calling t phase && not is_in_call_thread)

abbrev pub removal_returns : (is_in_call_thread : Bool) → ℕ → Listeners → Listeners
removal_returns true t s = record s { removed_in_call = t ∷ s.removed_in_call }
removal_returns false t s = record s { removed = t ∷ s.removed }

-- One round of the loop of `finish`, up to the call that it makes.
abbrev pub looked : ℕ → Option ℕ → Listeners → Listeners
looked ceiling none s = record s { phase = finished }
looked ceiling (some t) s = record s { phase = calling t ceiling; called = t ∷ s.called }

-- A token is known to others only when its registration has returned, so that none is removed that
-- is pending.
pub data Step : Listeners → Listeners → Type 0 where
  registers : (s : Listeners) → Step s (register s)
  reads_flag : (s : Listeners) (t : ℕ) → mem s.pending t ≡ true → Step s (read_flag t s)
  erases : (s : Listeners) (t : ℕ) → mem s.pending t ≡ false → t < s.next_token → Step s (erase t s)
  returns :
      (s : Listeners) (is_in_call_thread : Bool) (t : ℕ)
      → mem s.leaving t ≡ true
      → may_return is_in_call_thread t s.phase ≡ true
      → Step s (removal_returns is_in_call_thread t s)
  stores_flag :
      (s : Listeners) → s.phase ≡ crawling → Step s (record s { complete = true; phase = flagged })
  takes_ceiling :
      (s : Listeners)
      → s.phase ≡ flagged
      → Step s (record s { phase = looking 0 (s.next_token - 1) })
  looks :
      (s : Listeners) (last ceiling : ℕ)
      → s.phase ≡ looking last ceiling
      → Step s (looked ceiling (find_listener last ceiling s.listeners) s)
  call_ends :
      (s : Listeners) (t ceiling : ℕ)
      → s.phase ≡ calling t ceiling
      → Step s (record s { phase = looking t ceiling })

pub data Reach (s : Listeners) : Listeners → Type 0 where
  start : Reach s s
  next : {t u : Listeners} → Reach s t → Step t u → Reach s u
