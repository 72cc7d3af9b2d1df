-- ===== src/Vst3/EventOrder.antt =====
-- `_events` and `_eventindices`, `sortEventIndices`, `input_events_size` and `input_events_get`: the
-- events stay where they were pushed, and the plugin reads them through the sorted indices.
pub mod Stable
use mathlib.Core.List.{Perm}
use mathlib.Core.List.Perm
use wrac_plugin_template.Prelude.{
  ℕ, zero, suc, ◌+◌, ◌<◌, ◌^◌, Bool, ltb, ◌==◌, List, [], ◌∷◌, ◌++◌, ◌≡◌, refl, ap, arith, length,
  Option, none, some, get_elem?, map, u32, All, if◌then◌else◌,
}

pub record EventList {ℓ} (E : Type ℓ) : Type ℓ where
  pub events : List E
  pub indices : List ℕ

module _ {ℓ} {E : Type ℓ} where
  abbrev pub cleared : EventList E
  cleared = record { events = []; indices = [] }

  -- `_eventindices.push_back(_events.size()); _events.push_back(n);`
  abbrev pub push_back : E → EventList E → EventList E
  push_back n l = record {
    events = l.events ++ n ∷ [];
    indices = l.indices ++ length l.events ∷ [];
  }

  abbrev pub input_events_size : EventList E → ℕ
  input_events_size l = u32 (length l.events)

  abbrev pub input_events_get : EventList E → ℕ → Option E
  input_events_get l index =
      if ltb index (length l.events)
      then elim (get_elem? l.indices index) [ none ↦ none | some real ↦ get_elem? l.events real ]
      else none

-- `std::sort` by the comparison `before`, as a sort by insertion. It has one result, since the
-- comparison tells any two indices apart.
abbrev pub insert : (ℕ → ℕ → Bool) → ℕ → List ℕ → List ℕ
insert before a [] = a ∷ []
insert before a (b ∷ bs) =
    let rest = insert before a bs in if before a b then a ∷ b ∷ bs else b ∷ rest

abbrev pub sort : (ℕ → ℕ → Bool) → List ℕ → List ℕ
sort before [] = []
sort before (a ∷ rest) = insert before a (sort before rest)

module _ {ℓ} {E : Type ℓ} (time : E → ℕ) where
  abbrev pub time_of : Option E → ℕ
  time_of none = 0
  time_of (some e) = time e

  abbrev pub before : List E → ℕ → ℕ → Bool
  before events a b =
      let t1 = time_of (get_elem? events a) in
      let t2 = time_of (get_elem? events b) in if t1 == t2 then ltb a b else ltb t1 t2

  pub sort_event_indices : EventList E → EventList E
  sort_event_indices l = record l { indices = sort (before l.events) l.indices }
