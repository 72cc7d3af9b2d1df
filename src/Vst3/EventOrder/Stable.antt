-- ===== src/Vst3/EventOrder/Stable.antt =====
-- What the plugin reads of the list: its events by ascending time, those of one time in the order in
-- which they were pushed.
use mathlib.Core.List.{append_assoc, append-nil, Perm}
use mathlib.Core.List.Perm
use wrac_plugin_template.Prelude.{
  length-append, ap₂, leb→le, inr, inl, Bool-cases, ℕ, zero, suc, ◌+◌, ◌<◌, ◌≤◌, ◌^◌, true, leb,
  ltb, ◌==◌, List, [], ◌∷◌, ◌++◌, ◌≡◌, refl, sym, ap, ◌∙◌, arith, length, Option, none, some,
  get_elem?, map, u32, All, if◌then◌else◌,
}
use wrac_plugin_template.Vst3.EventOrder.{
  EventList, cleared, push_back, input_events_size, input_events_get, insert, sort, before,
  sort_event_indices,
}

abbrev pub from : ℕ → ℕ → List ℕ
from k zero = []
from k (suc n) = k ∷ from (suc k) n

from-suc : (k n : ℕ) → from k n ++ (k + n) ∷ [] ≡ from k (suc n)
from-suc k zero = let e : k + 0 ≡ k = omega arith in ap (λ m. m ∷ []) e
from-suc k (suc n) =
    let e : k + suc n ≡ suc k + n = omega arith in
    ap (◌∷◌ k) (ap (λ m. from (suc k) n ++ m ∷ []) e ∙ from-suc (suc k) n)

module _ {E : Type 0} where
  -- The events that a reader gets at the indices from 0 up to the size.
  abbrev pub read_all : EventList E → List (Option E)
  read_all l = map (input_events_get l) (from 0 (input_events_size l))

  abbrev pub push_all : List E → EventList E → EventList E
  push_all [] l = l
  push_all (e ∷ es) l = push_all es (push_back e l)

  module _ (time : E → ℕ) where
    abbrev pub IsAscending : List E → Type 0
    IsAscending [] = Unit
    IsAscending (x ∷ xs) = All (λ y. time x ≤ time y) xs × IsAscending xs

    abbrev pub at_time : ℕ → List E → List E
    at_time t [] = []
    at_time t (x ∷ xs) = if time x == t then x ∷ at_time t xs else at_time t xs

    -- The stable sort by insertion in front of the events that are not earlier.
    abbrev put_in : E → List E → List E
    put_in x [] = x ∷ []
    put_in x (y ∷ ys) = if leb (time x) (time y) then x ∷ y ∷ ys else y ∷ put_in x ys

    abbrev stable_sort : List E → List E
    stable_sort [] = []
    stable_sort (x ∷ xs) = put_in x (stable_sort xs)

    put_in_perm : (x : E) (ys : List E) → Perm (put_in x ys) (x ∷ ys)
    put_in_perm x [] = Perm.refl _
    put_in_perm x (y ∷ ys) = elim (Bool-cases (leb (time x) (time y))) [
      | inl e ↦ rw e (Perm.refl _)
      | inr e ↦ rw e (Perm.trans (Perm.cons y (put_in_perm x ys)) (Perm.swap x y ys))
    ]

    stable_sort_perm : (xs : List E) → Perm (stable_sort xs) xs
    stable_sort_perm [] = Perm.refl _
    stable_sort_perm (x ∷ xs) =
        Perm.trans (put_in_perm x (stable_sort xs)) (Perm.cons x (stable_sort_perm xs))

    All-put_in :
        (t : ℕ) (x : E) (ys : List E)
        → t ≤ time x
        → All (λ y. t ≤ time y) ys
        → All (λ y. t ≤ time y) (put_in x ys)
    All-put_in t x [] h a = (h, a)
    All-put_in t x (y ∷ ys) h a = elim (Bool-cases (leb (time x) (time y))) [
      | inl e ↦ rw e (h, a)
      | inr e ↦ rw e (a.0, All-put_in t x ys h a.1)
    ]

    All-le : (a b : ℕ) (ys : List E) → a ≤ b → All (λ y. b ≤ time y) ys → All (λ y. a ≤ time y) ys
    All-le a b [] h all = all
    All-le a b (y ∷ ys) h all = (omega (arith, all.0), All-le a b ys h all.1)

    put_in-IsAscending : (x : E) (ys : List E) → IsAscending ys → IsAscending (put_in x ys)
    put_in-IsAscending x [] s = (s, s)
    put_in-IsAscending x (y ∷ ys) s = elim (Bool-cases (leb (time x) (time y))) [
      | inl e ↦
          let h : time x ≤ time y = leb→le _ _ e in rw e ((h, All-le (time x) (time y) ys h s.0), s)
      | inr e ↦ rw e (All-put_in (time y) x ys (ground arith) s.0, put_in-IsAscending x ys s.1)
    ]

    stable_sort-IsAscending : (xs : List E) → IsAscending (stable_sort xs)
    stable_sort-IsAscending [] = _
    stable_sort-IsAscending (x ∷ xs) =
        put_in-IsAscending x (stable_sort xs) (stable_sort-IsAscending xs)

    at_time-put_in : (t : ℕ) (x : E) (ys : List E) → at_time t (put_in x ys) ≡ at_time t (x ∷ ys)
    at_time-put_in t x [] = refl
    at_time-put_in t x (y ∷ ys) = ground (arith, at_time-put_in t x ys)

    at_time-stable_sort : (t : ℕ) (xs : List E) → at_time t (stable_sort xs) ≡ at_time t xs
    at_time-stable_sort t [] = refl
    at_time-stable_sort t (x ∷ xs) =
        ground (arith, at_time-put_in t x (stable_sort xs), at_time-stable_sort t xs)

    length-put_in : (x : E) (ys : List E) → length (put_in x ys) ≡ suc (length ys)
    length-put_in x [] = refl
    length-put_in x (y ∷ ys) = ground (arith, length-put_in x ys)

    length-stable_sort : (xs : List E) → length (stable_sort xs) ≡ length xs
    length-stable_sort [] = refl
    length-stable_sort (x ∷ xs) =
        omega (arith, length-put_in x (stable_sort xs), length-stable_sort xs)

    -- The sort of the indices, seen through the events.
    module _ (events : List E) where
      abbrev IsLookup : ℕ → List ℕ → List E → Type 0
      IsLookup k [] [] = Unit
      IsLookup k [] (x ∷ xs) = ⊥
      IsLookup k (i ∷ is) [] = ⊥
      IsLookup k (i ∷ is) (x ∷ xs) = (get_elem? events i ≡ some x) × (k ≤ i) × IsLookup k is xs

      weaken : (k l : ℕ) (is : List ℕ) (xs : List E) → k ≤ l → IsLookup l is xs → IsLookup k is xs
      weaken k l [] [] h v = v
      weaken k l [] (x ∷ xs) h v = v
      weaken k l (i ∷ is) [] h v = v
      weaken k l (i ∷ is) (x ∷ xs) h v = (v.0, omega (arith, v.1), weaken k l is xs h v.2)

      before-later :
          (i j : ℕ) (x y : E)
          → get_elem? events i ≡ some x
          → get_elem? events j ≡ some y
          → i < j
          → before time events i j ≡ leb (time x) (time y)
      before-later i j x y ex ey h = rw (ex, ey) (ground arith)

      insert-IsLookup :
          (k i : ℕ) (x : E) (is : List ℕ) (xs : List E)
          → get_elem? events i ≡ some x
          → k ≤ i
          → IsLookup (suc i) is xs
          → IsLookup k (insert (before time events) i is) (put_in x xs)
      insert-IsLookup k i x [] [] e h l = (e, h, l)
      insert-IsLookup k i x [] (y ∷ ys) e h l = absurd l
      insert-IsLookup k i x (j ∷ js) [] e h l = absurd l
      insert-IsLookup k i x (j ∷ js) (y ∷ ys) e h l =
          rw (before-later i j x y e l.0 l.1) (elim (Bool-cases (leb (time x) (time y))) [
            | inl c ↦ rw c (e, h, weaken k (suc i) (j ∷ js) (y ∷ ys) (omega arith) l)
            | inr c ↦ rw c (l.0, omega (arith, l.1), insert-IsLookup k i x js ys e h l.2)
          ])

      sort-IsLookup :
          (k : ℕ) (xs : List E)
          → ((n : ℕ) → get_elem? events (k + n) ≡ get_elem? xs n)
          → IsLookup k (sort (before time events) (from k (length xs))) (stable_sort xs)
      sort-IsLookup k [] h = _
      sort-IsLookup k (x ∷ xs) h =
          let here : k ≡ k + 0 = omega arith in
          insert-IsLookup k k x _ _ (ap (get_elem? events) here ∙ h 0) (omega arith)
            (sort-IsLookup (suc k) xs (λ n. later n))
        where
          later : (n : ℕ) → get_elem? events (suc k + n) ≡ get_elem? xs n
          later n =
              let e : suc k + n ≡ k + suc n = omega arith in ap (get_elem? events) e ∙ h (suc n)

      length-IsLookup :
          (k : ℕ) (is : List ℕ) (xs : List E) → IsLookup k is xs → length is ≡ length xs
      length-IsLookup k [] [] l = refl
      length-IsLookup k [] (x ∷ xs) l = absurd l
      length-IsLookup k (i ∷ is) [] l = absurd l
      length-IsLookup k (i ∷ is) (x ∷ xs) l = omega (arith, length-IsLookup k is xs l.2)

      read-IsLookup :
          (k : ℕ) (is : List ℕ) (xs : List E) (n : ℕ)
          → IsLookup k is xs
          → elim (get_elem? is n) [ none ↦ none | some real ↦ get_elem? events real ]
            ≡ get_elem? xs n
      read-IsLookup k [] [] n l = refl
      read-IsLookup k [] (x ∷ xs) n l = absurd l
      read-IsLookup k (i ∷ is) [] n l = absurd l
      read-IsLookup k (i ∷ is) (x ∷ xs) zero l = l.0
      read-IsLookup k (i ∷ is) (x ∷ xs) (suc n) l = read-IsLookup k is xs n l.2

  map-from :
      (f : ℕ → Option E) (k : ℕ) (xs : List E)
      → ((n : ℕ) → n < length xs → f (k + n) ≡ get_elem? xs n)
      → map f (from k (length xs)) ≡ map some xs
  map-from f k [] h = refl
  map-from f k (x ∷ xs) h =
      let here : k ≡ k + 0 = omega arith in
      ap₂ (◌∷◌) (ap f here ∙ h 0 (omega arith)) (map-from f (suc k) xs later)
    where
      later : (n : ℕ) → n < length xs → f (suc k + n) ≡ get_elem? xs n
      later n b = let e : suc k + n ≡ k + suc n = omega arith in ap f e ∙ h (suc n) (omega arith)

  pub from-push :
      (es : List E) (e : E) → from 0 (length es) ++ length es ∷ [] ≡ from 0 (length (es ++ e ∷ []))
  from-push es e =
      let n : length (es ++ e ∷ []) ≡ suc (length es) = omega (arith, length-append es (e ∷ [])) in
      let z : 0 + length es ≡ length es = omega arith in rw (n, ← from-suc 0 (length es), z) refl

  -- The list whose indices are in the order of the events.
  abbrev pub unsorted : List E → EventList E
  unsorted es = record { events = es; indices = from 0 (length es) }

  push_all-unsorted : (es fs : List E) → push_all fs (unsorted es) ≡ unsorted (es ++ fs)
  push_all-unsorted es [] = ap unsorted (sym (append-nil es))
  push_all-unsorted es (f ∷ fs) =
      ap (push_all fs) pushed
      ∙ push_all-unsorted (es ++ f ∷ []) fs
      ∙ ap unsorted (append_assoc es (f ∷ []) fs)
    where
      pushed : push_back f (unsorted es) ≡ unsorted (es ++ f ∷ [])
      pushed = ap (λ i. record { events = es ++ f ∷ []; indices = i }) (from-push es f)

  -- What is read of a list whose indices are in the order of its events.
  pub reads_sorted :
      (time : E → ℕ) (es : List E)
      → length es < 2 ^ 32
      → (seen : List E) × (read_all (sort_event_indices time (unsorted es)) ≡ map some seen)
        × Perm seen es
        × IsAscending time seen
        × ((t : ℕ) → at_time time t seen ≡ at_time time t es)
  unfolding sort_event_indices
  reads_sorted time es h = (
    stable_sort time es,
    rw size reads,
    stable_sort_perm time es,
    stable_sort-IsAscending time es,
    λ t. at_time-stable_sort time t es,
  )
    where
      same : (n : ℕ) → get_elem? es (0 + n) ≡ get_elem? es n
      same n = let z : 0 + n ≡ n = omega arith in ap (get_elem? es) z

      sorted : IsLookup time es 0 (sort (before time es) (from 0 (length es))) (stable_sort time es)
      sorted = sort-IsLookup time es 0 es same

      same_length : length (stable_sort time es) ≡ length es
      same_length = length-stable_sort time es

      size : u32 (length es) ≡ length (stable_sort time es)
      size = omega (arith, same_length)

      read_one :
          (n : ℕ)
          → n < length (stable_sort time es)
          → input_events_get (sort_event_indices time (unsorted es)) (0 + n)
            ≡ get_elem? (stable_sort time es) n
      read_one n h =
          let z : 0 + n ≡ n = omega arith in
          let b : ltb n (length es) ≡ true = ground (arith, same_length) in
          rw (z, b) (read-IsLookup time es 0 _ _ n sorted)

      reads :
          map
            (input_events_get (sort_event_indices time (unsorted es)))
            (from 0 (length (stable_sort time es)))
          ≡ map some (stable_sort time es)
      reads = map-from _ 0 (stable_sort time es) read_one

  -- After any events are pushed to an empty list and sorted, the plugin reads each of them once, by
  -- ascending time, and those of one time in the order in which they were pushed.
  pub reads_in_order :
      (time : E → ℕ) (es : List E)
      → length es < 2 ^ 32
      → (seen : List E) × (read_all (sort_event_indices time (push_all es cleared)) ≡ map some seen)
        × Perm seen es
        × IsAscending time seen
        × ((t : ℕ) → at_time time t seen ≡ at_time time t es)
  reads_in_order time es h =
      let (seen, reads, same, rising, stable) = reads_sorted time es h in
      (
        seen,
        ap (λ l. read_all (sort_event_indices time l)) (push_all-unsorted [] es) ∙ reads,
        same,
        rising,
        stable,
      )
