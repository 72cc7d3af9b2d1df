-- ===== src/Vst3/Block/Sequence.antt =====
-- What stays true over the calls of a host.
use wrac_plugin_template.Prelude.{
  inr, inl, ◌≡◌, true, ℕ, Bool, List, [], ◌∷◌, Option, none, Bool-cases, Option-cases,
}
use wrac_plugin_template.Vst3.ActiveNotes.{ActiveNote}
use wrac_plugin_template.Vst3.Output.{VstEvent}
use wrac_plugin_template.Vst3.OutputEvents.{push_all}
use wrac_plugin_template.Vst3.OutputEvents.Gestures.{IsInStep, push_all-IsInStep}
use wrac_plugin_template.Vst3.Block.{
  InputSetup, OutputSetup, Plugin, ProcessData, Processor, Call, block, flush_params, OutputAdapter,
  Outputs, started, process, flush, run,
}

module _ (out : OutputSetup) (inp : InputSetup) (logged : out.around.has_automation ≡ true) where
  abbrev Steady : OutputAdapter out inp → Type 0
  Steady = IsInStep out.floats out.around out.sdk out.bus_by_port

  given_out :
      (es : Outputs out inp) (changes : Option (ℕ → Bool))
      (queue : Option (List (VstEvent out.floats))) (notes : List ActiveNote)
      (a : OutputAdapter out inp)
      → Steady a
      → Steady
          (push_all out.floats out.around out.sdk out.bus_by_port es
            (started out inp changes queue notes a)).1
  given_out es changes queue notes a s =
      push_all-IsInStep out.floats out.around out.sdk out.bus_by_port es _ logged
        (record { bracketed = s.bracketed; opened = s.opened })

  process-Steady :
      (plugin : Plugin out inp) (host : ProcessData out inp) (p : Processor out inp)
      → Steady p.adapter
      → Steady (process out inp plugin host p).adapter
  unfolding process
  process-Steady plugin host p s = elim (Bool-cases host.has_samples) [
    | inl c ↦ rw c (given_out _ host.output_parameter_changes host.output_events _ p.adapter s)
    | inr c ↦ rw c (given_out _ host.output_parameter_changes host.output_events _ p.adapter s)
  ]

  flush-Steady :
      (plugin : Plugin out inp) (p : Processor out inp)
      → Steady p.adapter
      → Steady (flush out inp plugin p).adapter
  unfolding flush
  flush-Steady plugin p s = elim (Option-cases plugin.flush) [
    | inl c ↦ rw c s
    | inr (read, c) ↦ rw c (given_out (read []) none none p.adapter.active_notes p.adapter s)
  ]

  run-Steady :
      (plugin : Plugin out inp) (calls : List (Call out inp)) (p : Processor out inp)
      → Steady p.adapter
      → Steady (run out inp plugin calls p).adapter
  unfolding run
  run-Steady plugin [] p s = s
  run-Steady plugin (block host ∷ calls) p s =
      run-Steady plugin calls _ (process-Steady plugin host p s)
  run-Steady plugin (flush_params ∷ calls) p s = run-Steady plugin calls _ (flush-Steady plugin p s)

-- Over any calls of the host, the edits that it is told stay bracketed, whatever the plugin gives
-- out, and the gestured parameters are those being edited. The host listens to the edits.
pub run-IsInStep :
    (out : OutputSetup) (inp : InputSetup) (plugin : Plugin out inp) (calls : List (Call out inp))
    (p : Processor out inp)
    → out.around.has_automation ≡ true
    → IsInStep out.floats out.around out.sdk out.bus_by_port p.adapter
    → IsInStep out.floats out.around out.sdk out.bus_by_port (run out inp plugin calls p).adapter
run-IsInStep out inp plugin calls p logged s = run-Steady out inp logged plugin calls p s
