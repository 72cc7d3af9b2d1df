-- ===== src/Presets/Receiver/Collects.antt =====
-- What `finish_file` collects is what the calls say.
use wrac_plugin_template.Prelude.{
  Bool, true, false, not, ◌||◌, if◌then◌else◌, List, [], ◌∷◌, ◌++◌, append_assoc, append-nil,
  Option, none, some, ◌≡◌, refl, sym, ap, ap₂, ◌∙◌, arith,
}
use wrac_plugin_template.Prelude.Text.{Text}
use wrac_plugin_template.Presets.{PresetEntry}
use wrac_plugin_template.Presets.Receiver.{
  Call, on_error, begin_preset, add_plugin_id, set_soundpack_id, set_flags, add_creator,
  set_description, set_timestamps, add_feature, add_extra_info, Pending, Receiver, is_for,
  unless_empty, amend, new_entry, fresh_pending, receive, receive_all, kept, finish_file,
}
use wrac_plugin_template.Presets.Receiver.Groups.{
  details, creators_in, features_in, ids_in, all_of, any_for, is_none, described, entry_at,
  entries_of,
}

abbrev amended : Text → List Call → Pending → Pending
amended plugin [] p = p
amended plugin (c ∷ calls) p = amended plugin calls (amend plugin c p)

abbrev outcome : Text → List Call → Pending → Pending
outcome plugin calls p = record {
  entry = described p.entry calls;
  saw_any_plugin_id = p.saw_any_plugin_id || not (is_none (all_of ids_in calls));
  matched_plugin_id = p.matched_plugin_id || any_for plugin (all_of ids_in calls);
}

or_false : (b : Bool) → b ≡ (b || false)
or_false b = ground arith

or_true : (b : Bool) → true ≡ (b || true)
or_true b = ground arith

or_swap : (a b c : Bool) → ((a || b) || c) ≡ (b || (a || c))
or_swap a b c = ground arith

amended-outcome :
    (plugin : Text) (calls : List Call) (p : Pending)
    → amended plugin calls p ≡ outcome plugin calls p
unfolding amend
amended-outcome plugin [] p = λ i. record {
  entry = record p.entry {
    creators = sym (append-nil p.entry.creators) i;
    features = sym (append-nil p.entry.features) i;
  };
  saw_any_plugin_id = or_false p.saw_any_plugin_id i;
  matched_plugin_id = or_false p.matched_plugin_id i;
}
amended-outcome plugin (on_error ∷ calls) p = amended-outcome plugin calls p
amended-outcome plugin (begin_preset name key ∷ calls) p = amended-outcome plugin calls p
amended-outcome plugin (add_plugin_id none ∷ calls) p = amended-outcome plugin calls p
amended-outcome plugin (add_extra_info ∷ calls) p = amended-outcome plugin calls p
amended-outcome plugin (set_flags flags ∷ calls) p = amended-outcome plugin calls _
amended-outcome plugin (set_timestamps c m ∷ calls) p = amended-outcome plugin calls _
amended-outcome plugin (set_soundpack_id none ∷ calls) p = amended-outcome plugin calls p
amended-outcome plugin (set_soundpack_id (some id) ∷ calls) p = amended-outcome plugin calls _
amended-outcome plugin (set_description none ∷ calls) p = amended-outcome plugin calls p
amended-outcome plugin (set_description (some d) ∷ calls) p = amended-outcome plugin calls _
amended-outcome plugin (add_plugin_id (some id) ∷ calls) p =
    amended-outcome plugin calls (amend plugin (add_plugin_id (some id)) p) ∙ λ i. record {
      entry = described p.entry calls;
      saw_any_plugin_id = or_true p.saw_any_plugin_id i;
      matched_plugin_id =
          or_swap (is_for plugin id) p.matched_plugin_id (any_for plugin (all_of ids_in calls)) i;
    }
amended-outcome plugin (add_creator c ∷ calls) p =
    amended-outcome plugin calls (amend plugin (add_creator c) p) ∙ λ i.
    record (outcome plugin calls p) {
      entry = record (described p.entry calls) {
        creators = append_assoc p.entry.creators (unless_empty c) (all_of creators_in calls) i;
      };
    }
amended-outcome plugin (add_feature f ∷ calls) p =
    amended-outcome plugin calls (amend plugin (add_feature f) p) ∙ λ i.
    record (outcome plugin calls p) {
      entry = record (described p.entry calls) {
        features = append_assoc p.entry.features (unless_empty f) (all_of features_in calls) i;
      };
    }

abbrev keep : Pending → List PresetEntry
keep p = if not p.saw_any_plugin_id || p.matched_plugin_id then p.entry ∷ [] else []

keep-amended :
    (r : Receiver) (name key : Option Text) (calls : List Call)
    → keep (amended r.plugin_id (details calls) (fresh_pending r name key))
      ≡ entry_at r (begin_preset name key) calls
keep-amended r name key calls =
    ap keep (amended-outcome r.plugin_id (details calls) (fresh_pending r name key))
    ∙ ap
        (λ b.
          if b || any_for r.plugin_id (all_of ids_in (details calls))
          then described (new_entry r name key) (details calls) ∷ []
          else [])
        (not_not (is_none (all_of ids_in (details calls))))
  where
    not_not : (b : Bool) → not (not b) ≡ b
    not_not b = ground arith

-- The presets after the calls, where `p` was begun last before them.
kept-all :
    (r : Receiver) (calls : List Call) (p : Pending) (ps : List Pending)
    → kept (receive_all (record r { pending = p ∷ ps }) calls).pending
      ≡ kept ps ++ (keep (amended r.plugin_id (details calls) p) ++ entries_of r calls)
unfolding kept receive details
kept-all r [] p ps = ap (◌++◌ (kept ps)) (sym (append-nil (keep p)))
kept-all r (begin_preset name key ∷ calls) p ps =
    kept-all r calls (fresh_pending r name key) (p ∷ ps)
    ∙ append_assoc (kept ps) (keep p) (
        keep (amended r.plugin_id (details calls) (fresh_pending r name key)) ++ entries_of r calls)
    ∙ ap (λ (l : List PresetEntry). kept ps ++ (keep p ++ (l ++ entries_of r calls)))
        (keep-amended r name key calls)
kept-all r (on_error ∷ calls) p ps = kept-all r calls p ps
kept-all r (add_plugin_id x ∷ calls) p ps =
    kept-all r calls (amend r.plugin_id (add_plugin_id x) p) ps
kept-all r (set_soundpack_id x ∷ calls) p ps =
    kept-all r calls (amend r.plugin_id (set_soundpack_id x) p) ps
kept-all r (set_flags x ∷ calls) p ps = kept-all r calls (amend r.plugin_id (set_flags x) p) ps
kept-all r (add_creator x ∷ calls) p ps = kept-all r calls (amend r.plugin_id (add_creator x) p) ps
kept-all r (set_description x ∷ calls) p ps =
    kept-all r calls (amend r.plugin_id (set_description x) p) ps
kept-all r (set_timestamps x y ∷ calls) p ps =
    kept-all r calls (amend r.plugin_id (set_timestamps x y) p) ps
kept-all r (add_feature x ∷ calls) p ps = kept-all r calls (amend r.plugin_id (add_feature x) p) ps
kept-all r (add_extra_info ∷ calls) p ps = kept-all r calls p ps

pub kept-first :
    (r : Receiver) (calls : List Call)
    → kept (receive_all (record r { pending = [] }) calls).pending ≡ entries_of r calls
unfolding kept receive
kept-first r [] = refl
kept-first r (begin_preset name key ∷ calls) =
    kept-all r calls (fresh_pending r name key) []
    ∙ ap (λ (l : List PresetEntry). l ++ entries_of r calls) (keep-amended r name key calls)
kept-first r (on_error ∷ calls) = kept-first r calls
kept-first r (add_plugin_id x ∷ calls) = kept-first r calls
kept-first r (set_soundpack_id x ∷ calls) = kept-first r calls
kept-first r (set_flags x ∷ calls) = kept-first r calls
kept-first r (add_creator x ∷ calls) = kept-first r calls
kept-first r (set_description x ∷ calls) = kept-first r calls
kept-first r (set_timestamps x y ∷ calls) = kept-first r calls
kept-first r (add_feature x ∷ calls) = kept-first r calls
kept-first r (add_extra_info ∷ calls) = kept-first r calls

receive-collected : (r : Receiver) (c : Call) → (receive r c).collected ≡ r.collected
unfolding receive
receive-collected r (begin_preset name key) = refl
receive-collected r on_error = refl
receive-collected r (add_plugin_id x) = refl
receive-collected r (set_soundpack_id x) = refl
receive-collected r (set_flags x) = refl
receive-collected r (add_creator x) = refl
receive-collected r (set_description x) = refl
receive-collected r (set_timestamps x y) = refl
receive-collected r (add_feature x) = refl
receive-collected r add_extra_info = refl

receive_all-collected :
    (r : Receiver) (calls : List Call) → (receive_all r calls).collected ≡ r.collected
receive_all-collected r [] = refl
receive_all-collected r (c ∷ calls) =
    receive_all-collected (receive r c) calls ∙ receive-collected r c

-- When a file is finished, of which a provider has said whatever it likes in whatever order, the
-- presets are added that name no plugin or this one, as they were begun, each with the last soundpack,
-- description, flags and times and with all creators and features that were said of it; what is said
-- before the first preset is ignored.
pub finish_file-Collects :
    (r : Receiver) (calls : List Call)
    → (finish_file (receive_all (record r { pending = [] }) calls)).collected
      ≡ r.collected ++ entries_of r calls
unfolding finish_file
finish_file-Collects r calls =
    ap₂ (λ (x y : List PresetEntry). x ++ y)
      (receive_all-collected (record r { pending = [] }) calls) (kept-first r calls)
