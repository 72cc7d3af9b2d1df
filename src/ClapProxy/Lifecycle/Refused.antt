-- ===== src/ClapProxy/Lifecycle/Refused.antt =====
-- An object whose plugin does not initialize.
use wrac_plugin_template.Prelude.{
  ℕ, Bool, true, false, not, ◌||◌, if◌then◌else◌, List, [], ◌∷◌, ◌++◌, append-nil, append_assoc,
  map, Option, none, some, ◌≡◌, refl, sym, ap, ◌∙◌,
}
use wrac_plugin_template.ClapProxy.Extensions.{
  ExtensionNames, no_extensions, extensions_of, queries,
}
use wrac_plugin_template.ClapProxy.Lifecycle.{
  AudioSetup, Entry, init, destroy, setup_wrapper_specifics, from_location, get_extension,
  asked_for_api, Call, Hosted, Proxy, Op, initializes, terminates, sets_sample_rate,
  sets_block_sizes, sets_bus_activation, loads, loads_preset, saves, activates, deactivates,
  starts_processing, stops_processing, resets, call, call_if, call_all, connect_clap, new_proxy,
  step, bind, run, calls_after, calls_of, session,
}
use wrac_plugin_template.ClapProxy.Lifecycle.Life.{live}

-- The operations that go through the pointer to the plugin.
abbrev pub needs_plugin : Op → Bool
needs_plugin terminates = true
needs_plugin activates = true
needs_plugin deactivates = true
needs_plugin starts_processing = true
needs_plugin stops_processing = true
needs_plugin resets = true
needs_plugin initializes = false
needs_plugin (sets_sample_rate rate) = false
needs_plugin (sets_block_sizes low high) = false
needs_plugin (sets_bus_activation is_input bus active) = false
needs_plugin loads = false
needs_plugin loads_preset = false
needs_plugin saves = false

abbrev pub any_needs_plugin : List Op → Bool
any_needs_plugin [] = false
any_needs_plugin (op ∷ ops) = needs_plugin op || any_needs_plugin ops

-- A call that is given the null pointer.
abbrev pub null_call : Bool → Entry → Call
null_call is_main e = record {
  entry = e;
  is_given = false;
  on_main_thread = is_main;
  on_audio_thread = not is_main;
}

abbrev pub entries_for : Op → List Entry
entries_for initializes = setup_wrapper_specifics ∷ []
entries_for op = []

abbrev pub entries_for_all : List Op → List Entry
entries_for_all [] = []
entries_for_all (op ∷ ops) = entries_for op ++ entries_for_all ops

module _ (is_main : Bool) where
  map-append :
      (xs ys : List Entry)
      → map (null_call is_main) (xs ++ ys)
        ≡ map (null_call is_main) xs ++ map (null_call is_main) ys
  map-append [] ys = refl
  map-append (x ∷ xs) ys = ap (◌∷◌ (null_call is_main x)) (map-append xs ys)

  abbrev refused : AudioSetup → List Call → Proxy
  refused a cs = record {
    plugin = false;
    ext = no_extensions;
    audio_setup = a;
    main_thread_override = 0;
    audio_thread_override = 0;
    calls = cs;
  }

  abbrev after_setup : Op → AudioSetup → AudioSetup
  after_setup (sets_sample_rate rate) a = record a { sample_rate = rate }
  after_setup (sets_block_sizes low high) a = record a { min_frames = low; max_frames = high }
  after_setup op a = a

  abbrev outcome : Op → AudioSetup → List Call → Option Proxy
  outcome op a cs =
      if needs_plugin op
      then none
      else some (refused (after_setup op a) (cs ++ map (null_call is_main) (entries_for op)))

  step-refused :
      (h : Hosted) (op : Op) (a : AudioSetup) (cs : List Call)
      → step is_main h op (refused a cs) ≡ outcome op a cs
  unfolding step
  step-refused h initializes a cs = refl
  step-refused h terminates a cs = refl
  step-refused h (sets_sample_rate rate) a cs =
      ap (λ l. some (refused (record a { sample_rate = rate }) l)) (sym (append-nil cs))
  step-refused h (sets_block_sizes low high) a cs =
      ap (λ l. some (refused (record a { min_frames = low; max_frames = high }) l))
        (sym (append-nil cs))
  step-refused h (sets_bus_activation is_input bus active) a cs =
      ap (λ l. some (refused a l)) (sym (append-nil cs))
  step-refused h loads a cs = ap (λ l. some (refused a l)) (sym (append-nil cs))
  step-refused h loads_preset a cs = no_preset h.has_from_location
    where
      no_preset :
          (b : Bool)
          → some (call_if is_main (if b then none else none) from_location (refused a cs))
            ≡ outcome loads_preset a cs
      no_preset true = ap (λ l. some (refused a l)) (sym (append-nil cs))
      no_preset false = ap (λ l. some (refused a l)) (sym (append-nil cs))
  step-refused h saves a cs = ap (λ l. some (refused a l)) (sym (append-nil cs))
  step-refused h activates a cs = refl
  step-refused h deactivates a cs = refl
  step-refused h starts_processing a cs = refl
  step-refused h stops_processing a cs = refl
  step-refused h resets a cs = refl

  run-refused :
      (h : Hosted) (ops : List Op) (a : AudioSetup) (cs : List Call)
      → calls_after is_main (run is_main h ops (refused a cs)) ≡ (
          if any_needs_plugin ops
          then none
          else some (cs ++ map (null_call is_main) (entries_for_all ops)))
  unfolding run
  run-refused h [] a cs = ap some (sym (append-nil cs))
  run-refused h (op ∷ ops) a cs =
      ap (λ p. calls_after is_main (bind is_main (run is_main h ops) p)) (step-refused h op a cs)
      ∙ go (needs_plugin op)
          (run-refused h ops (after_setup op a) (cs ++ map (null_call is_main) (entries_for op)))
    where
      es : List Entry
      es = entries_for op

      go :
          (b : Bool)
          → calls_after is_main
              (run is_main h ops (refused (after_setup op a) (cs ++ map (null_call is_main) es)))
            ≡ (if any_needs_plugin ops
                then none
                else some (
                    (cs ++ map (null_call is_main) es)
                    ++ map (null_call is_main) (entries_for_all ops)))
          → calls_after is_main (
              bind is_main (run is_main h ops) (
                if b
                then none
                else some (refused (after_setup op a) (cs ++ map (null_call is_main) es))))
            ≡ (if b || any_needs_plugin ops
                then none
                else some (cs ++ map (null_call is_main) (es ++ entries_for_all ops)))
      go true rest = refl
      go false rest =
          rest
          ∙ ap (λ (l : List Call). if any_needs_plugin ops then none else some l)
              (append_assoc cs (map (null_call is_main) es)
                  (map (null_call is_main) (entries_for_all ops))
                ∙ ap (◌++◌ cs) (sym (map-append es (entries_for_all ops))))

  -- An object whose plugin is created and does not initialize is made all the same, with the plugin
  -- destroyed. A session with it dereferences the null pointer exactly if it has an operation that
  -- goes through the pointer to the plugin, terminate among them; any other session destroys the
  -- plugin once and calls nothing of it afterwards, and hands the wrapper a null pointer each time it
  -- initializes.
  pub session-refused :
      (names : ExtensionNames) (default_rate : ℕ) (h : Hosted) (ops : List Op)
      → h.is_created ≡ true
      → h.inits ≡ false
      → session is_main names default_rate h ops ≡ (
          if any_needs_plugin ops
          then none
          else some (
              live is_main init
              ∷ live is_main destroy
              ∷ map (null_call is_main) (entries_for_all ops)))
  unfolding session connect_clap
  session-refused names default_rate h ops created inits =
      ap
        (λ b. calls_of is_main h ops (
          if b then some (connect_clap is_main names h (new_proxy is_main default_rate)) else none))
        created
      ∙ ap (λ p. calls_after is_main (run is_main h ops p)) connected
      ∙ run-refused h ops first (live is_main init ∷ live is_main destroy ∷ [])
    where
      first : AudioSetup
      first = record { sample_rate = default_rate; min_frames = 0; max_frames = 0 }

      made : Proxy
      made = call is_main init (record (new_proxy is_main default_rate) { plugin = true })

      connected :
          connect_clap is_main names h (new_proxy is_main default_rate)
          ≡ refused first (live is_main init ∷ live is_main destroy ∷ [])
      connected =
          ap
            (λ b.
              if not b
              then record (call is_main destroy made) { plugin = false }
              else record (call_all is_main
                  (map get_extension (queries names h.extension h.supports_api)
                    ++ asked_for_api (h.extension names.gui))
                  made) { ext = extensions_of names h.extension h.supports_api })
            inits
