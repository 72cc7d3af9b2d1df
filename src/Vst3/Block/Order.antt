-- ===== src/Vst3/Block/Order.antt =====
-- The order in which the plugin reads the events of a block.
use mathlib.Core.List.{Perm}
use wrac_plugin_template.Prelude.{
  true, sym, ℕ, ◌<◌, ◌^◌, ◌≡◌, ap, ◌∙◌, refl, List, [], ◌∷◌, ◌++◌, map, length, Option, none, some,
  arith,
}
use wrac_plugin_template.Vst3.EventOrder.{EventList, push_back, sort_event_indices}
use wrac_plugin_template.Vst3.EventOrder.Stable.{
  from, from-push, reads_sorted, read_all, IsAscending, at_time,
}
use wrac_plugin_template.Vst3.Input.Addressed.{events-IsInput}
use wrac_plugin_template.Vst3.ParamChanges.{
  ValueQueue, ChangeEvent, process_change, process_changes,
}
use wrac_plugin_template.Vst3.Block.{
  InputSetup, OutputSetup, BlockEvent, from_change, time_of_event, ProcessData, Processor,
  host_events, gather, view,
}

-- The indices of a list are in the order of its events.
abbrev pub IsOrdered : {E : Type 0} → EventList E → Type 0
IsOrdered l = l.indices ≡ from 0 (length l.events)

length-map : {A B : Type 0} (f : A → B) (xs : List A) → length (map f xs) ≡ length xs
length-map f [] = refl
length-map f (x ∷ xs) = omega (arith, length-map f xs)

push_back-IsOrdered :
    {E : Type 0} (e : E) (l : EventList E) → IsOrdered l → IsOrdered (push_back e l)
push_back-IsOrdered e l h = ap (λ i. i ++ length l.events ∷ []) h ∙ from-push l.events e

module _ (out : OutputSetup) (inp : InputSetup) where
  open inp use {
    doubles, types, Value, parameters, to_int64, supports_poly_pressure, supports_tuning,
  }

  process_changes-IsOrdered :
      {E : Type 0} (gestured : List ℕ) (event : ChangeEvent doubles Value → E)
      (ks : List (ValueQueue doubles Value)) (l : EventList E) (requests : List ℕ)
      → IsOrdered l
      → IsOrdered
          (process_changes doubles Value out.sdk parameters gestured to_int64
            out.around.has_automation event ks l requests).0
  unfolding process_changes
  process_changes-IsOrdered gestured event [] l requests h = h
  process_changes-IsOrdered {E = E} gestured event (k ∷ ks) l requests h =
      process_changes-IsOrdered gestured event ks _ _ (
        pushed
          (process_change doubles Value out.sdk parameters gestured to_int64
            out.around.has_automation k).0)
    where
      pushed :
          (made : Option (ChangeEvent doubles Value))
          → IsOrdered
              (elim made as (λ x. EventList E) [ none ↦ l | some e ↦ push_back (event e) l ])
      pushed none = h
      pushed (some e) = push_back-IsOrdered (event e) l h

  gather-IsOrdered :
      (p : Processor out inp) (host : ProcessData out inp) → IsOrdered (gather out inp p host).0
  unfolding gather
  gather-IsOrdered p host =
      process_changes-IsOrdered p.adapter.gestured from_change host.input_parameter_changes _ _
        (received ∙ ap (from 0) (sym (length-map _ (host_events out inp p host).0.events)))
    where
      received :
          (host_events out inp p host).0.indices
          ≡ from 0 (length (host_events out inp p host).0.events)
      received =
          (events-IsInput doubles types true supports_poly_pressure supports_tuning
            host.input_events _ refl (record { events = _; indices = refl })).indices

  -- In a block of fewer than 2 ^ 32 events the plugin reads each event that was made of the host's
  -- events and parameter changes once, by ascending time, and those of one time in the order in
  -- which they were made.
  pub view_in_order :
      (p : Processor out inp) (host : ProcessData out inp)
      → length (gather out inp p host).0.events < 2 ^ 32
      → let made = (gather out inp p host).0.events in
        (seen : List (BlockEvent out inp)) × (view out inp p host ≡ map some seen)
        × Perm seen made
        × IsAscending (time_of_event out inp) seen
        × ((t : ℕ)
            → at_time (time_of_event out inp) t seen ≡ at_time (time_of_event out inp) t made)
  unfolding view
  view_in_order p host h =
      let (seen, reads, same, rising, stable) =
        reads_sorted (time_of_event out inp) (gather out inp p host).0.events h in
      (
        seen,
        ap
              (λ i. read_all (
                sort_event_indices (time_of_event out inp)
                  (record { events = (gather out inp p host).0.events; indices = i })))
              (gather-IsOrdered p host)
            ∙ reads,
        same,
        rising,
        stable,
      )
