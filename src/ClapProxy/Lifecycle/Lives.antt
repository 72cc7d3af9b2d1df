-- ===== src/ClapProxy/Lifecycle/Lives.antt =====
-- The life of an object is the one that `Life` says.
use wrac_plugin_template.Prelude.{
  ℕ, Bool, true, false, not, ◌&&◌, if◌then◌else◌, List, [], ◌∷◌, ◌++◌, append-nil, append_assoc,
  map, Option, none, some, ◌≡◌, refl, sym, ap, ◌∙◌, arith,
}
use wrac_plugin_template.ClapProxy.Extensions.{
  ExtensionNames, ClapPluginExtensions, no_extensions, extensions_of, queries,
}
use wrac_plugin_template.ClapProxy.Lifecycle.{
  AudioSetup, Entry, init, destroy, get_extension, load, save, set_active, from_location,
  setup_wrapper_specifics, setup_audio_busses, setup_midi_busses, setup_parameters, Call, Hosted,
  Proxy, Op, initializes, terminates, sets_sample_rate, sets_block_sizes, sets_bus_activation,
  loads, loads_preset, saves, activates, deactivates, starts_processing, stops_processing, resets,
  call, call_if, call_all, asked_for_api, connect_clap, new_proxy, initialize, step, bind, run,
  calls_after, calls_of, session,
}
use wrac_plugin_template.ClapProxy.Lifecycle.Life.{
  for_audio, live, if_some, setup_after, entries_of, entries_of_all, is_terminate, never_terminates,
  and_terminates, first_entries, first_setup, life_of,
}

module _ (is_main : Bool) where
  map-append :
      (xs ys : List Entry)
      → map (live is_main) (xs ++ ys) ≡ map (live is_main) xs ++ map (live is_main) ys
  map-append [] ys = refl
  map-append (x ∷ xs) ys = ap (◌∷◌ (live is_main x)) (map-append xs ys)

  abbrev alive : ClapPluginExtensions → AudioSetup → List Call → Proxy
  alive ext a cs = record {
    plugin = true;
    ext = ext;
    audio_setup = a;
    main_thread_override = 0;
    audio_thread_override = 0;
    calls = cs;
  }

  call_if-alive :
      (x : Option ℕ) (e : Entry) (ext : ClapPluginExtensions) (a : AudioSetup) (cs : List Call)
      → for_audio e ≡ false
      → call_if is_main x e (alive ext a cs) ≡ alive ext a (cs ++ map (live is_main) (if_some x e))
  call_if-alive none e ext a cs h = ap (alive ext a) (sym (append-nil cs))
  call_if-alive (some p) e ext a cs h =
      ap
        (λ b. alive ext a (
          cs
          ++ record { entry = e; is_given = true; on_main_thread = is_main; on_audio_thread = b }
            ∷ []))
        (ground (arith, h))

  initialize-alive :
      (ext : ClapPluginExtensions) (h : Hosted) (a : AudioSetup) (cs : List Call)
      → initialize is_main (alive ext a cs)
        ≡ alive ext a (cs ++ map (live is_main) (entries_of ext h initializes a))
  initialize-alive ext h a cs =
      let one = live is_main setup_wrapper_specifics ∷ [] in
      let audio = if_some ext.audioports setup_audio_busses in
      let midi = if_some ext.noteports setup_midi_busses in
      let parameters = if_some ext.params setup_parameters in
      ap
        (λ p.
          call_if is_main ext.params setup_parameters
            (call_if is_main ext.noteports setup_midi_busses p))
        (call_if-alive ext.audioports setup_audio_busses ext a (cs ++ one) refl)
      ∙ ap (call_if is_main ext.params setup_parameters) (
          call_if-alive ext.noteports setup_midi_busses ext a
            ((cs ++ one) ++ map (live is_main) audio) refl)
      ∙ call_if-alive ext.params setup_parameters ext a
          (((cs ++ one) ++ map (live is_main) audio) ++ map (live is_main) midi) refl
      ∙ ap (alive ext a) (
          append_assoc ((cs ++ one) ++ map (live is_main) audio) (map (live is_main) midi)
            (map (live is_main) parameters)
          ∙ append_assoc (cs ++ one) (map (live is_main) audio)
              (map (live is_main) midi ++ map (live is_main) parameters)
          ∙ append_assoc cs one (
              map (live is_main) audio
              ++ (map (live is_main) midi ++ map (live is_main) parameters))
          ∙ ap (λ (l : List Call). cs ++ (one ++ l))
              (ap (λ (l : List Call). map (live is_main) audio ++ l)
                  (sym (map-append midi parameters))
                ∙ sym (map-append audio (midi ++ parameters))))

  step-alive :
      (ext : ClapPluginExtensions) (h : Hosted) (op : Op) (a : AudioSetup) (cs : List Call)
      → is_terminate op ≡ false
      → step is_main h op (alive ext a cs)
        ≡ some (alive ext (setup_after op a) (cs ++ map (live is_main) (entries_of ext h op a)))
  unfolding step
  step-alive ext h initializes a cs n = ap some (initialize-alive ext h a cs)
  step-alive ext h terminates a cs n = ground (arith, n)
  step-alive ext h (sets_sample_rate rate) a cs n =
      ap (λ l. some (alive ext (record a { sample_rate = rate }) l)) (sym (append-nil cs))
  step-alive ext h (sets_block_sizes low high) a cs n =
      ap (λ l. some (alive ext (record a { min_frames = low; max_frames = high }) l))
        (sym (append-nil cs))
  step-alive ext h (sets_bus_activation is_input bus active) a cs n =
      ap some
        (call_if-alive ext.audio_ports_activation (set_active is_input bus active) ext a cs refl)
  step-alive ext h loads a cs n = ap some (call_if-alive ext.state load ext a cs refl)
  step-alive ext h loads_preset a cs n = preset h.has_from_location
    where
      preset :
          (b : Bool)
          → some
              (call_if is_main (if b then ext.preset_load else none) from_location (alive ext a cs))
            ≡ some (
                alive ext a (
                  cs
                  ++ map (live is_main) (if b then if_some ext.preset_load from_location else [])))
      preset true = ap some (call_if-alive ext.preset_load from_location ext a cs refl)
      preset false = ap (λ l. some (alive ext a l)) (sym (append-nil cs))
  step-alive ext h saves a cs n = ap some (call_if-alive ext.state save ext a cs refl)
  step-alive ext h activates a cs n = refl
  step-alive ext h deactivates a cs n = refl
  step-alive ext h starts_processing a cs n = refl
  step-alive ext h stops_processing a cs n = refl
  step-alive ext h resets a cs n = refl

  abbrev are_quiet : List Entry → Bool
  are_quiet [] = true
  are_quiet (e ∷ es) = not (for_audio e) && are_quiet es

  are_quiet-queries :
      (names : List ℕ) (es : List Entry)
      → are_quiet es ≡ true
      → are_quiet (map get_extension names ++ es) ≡ true
  are_quiet-queries [] es h = h
  are_quiet-queries (n ∷ names) es h = are_quiet-queries names es h

  call_all-alive :
      (es : List Entry) (ext : ClapPluginExtensions) (a : AudioSetup) (cs : List Call)
      → are_quiet es ≡ true
      → call_all is_main es (alive ext a cs) ≡ alive ext a (cs ++ map (live is_main) es)
  call_all-alive [] ext a cs h = ap (alive ext a) (sym (append-nil cs))
  call_all-alive (e ∷ es) ext a cs h =
      let one = live is_main e ∷ [] in
      ap (call_all is_main es) (call_if-alive (some 0) e ext a cs (ground (arith, h)))
      ∙ call_all-alive es ext a (cs ++ one) (ground (arith, h))
      ∙ ap (alive ext a) (append_assoc cs one (map (live is_main) es))

  connect_clap-alive :
      (names : ExtensionNames) (default_rate : ℕ) (h : Hosted)
      → h.inits ≡ true
      → connect_clap is_main names h (new_proxy is_main default_rate)
        ≡ alive
            (extensions_of names h.extension h.supports_api)
            (first_setup default_rate)
            (map (live is_main) (init ∷ first_entries names h))
  unfolding connect_clap
  connect_clap-alive names default_rate h inits =
      let made = alive no_extensions (first_setup default_rate) (live is_main init ∷ []) in
      let ext = extensions_of names h.extension h.supports_api in
      ap
        (λ b.
          if not b
          then record (call is_main destroy made) { plugin = false }
          else record (call_all is_main (first_entries names h) made) { ext = ext })
        inits
      ∙ ap (λ (p : Proxy). record p { ext = ext })
          (call_all-alive (first_entries names h) no_extensions (first_setup default_rate)
            (live is_main init ∷ [])
            (are_quiet-queries (queries names h.extension h.supports_api)
              (asked_for_api (h.extension names.gui)) (gui_quiet (h.extension names.gui))))
    where
      gui_quiet : (gui : Option ℕ) → are_quiet (asked_for_api gui) ≡ true
      gui_quiet none = refl
      gui_quiet (some g) = refl

  run-alive :
      (ext : ClapPluginExtensions) (h : Hosted) (ops : List Op) (ends : Bool) (a : AudioSetup)
      (cs : List Call)
      → never_terminates ops ≡ true
      → calls_after is_main (run is_main h (and_terminates ends ops) (alive ext a cs))
        ≡ some (cs ++ map (live is_main) (entries_of_all ext h ops a ++ destroy ∷ []))
  unfolding run step
  run-alive ext h [] true a cs n = refl
  run-alive ext h [] false a cs n = refl
  run-alive ext h (op ∷ ops) ends a cs n =
      let es = entries_of ext h op a in
      let later = entries_of_all ext h ops (setup_after op a) ++ destroy ∷ [] in
      ap (λ p. calls_after is_main (bind is_main (run is_main h (and_terminates ends ops)) p))
        (step-alive ext h op a cs (ground (arith, n)))
      ∙ run-alive ext h ops ends (setup_after op a) (cs ++ map (live is_main) es)
          (ground (arith, n))
      ∙ ap some (
          append_assoc cs (map (live is_main) es) (map (live is_main) later)
          ∙ ap (◌++◌ cs) (sym (map-append es later))
          ∙ ap (λ (l : List Entry). cs ++ map (live is_main) l)
              (sym (append_assoc es (entries_of_all ext h ops (setup_after op a)) (destroy ∷ []))))

  -- An object whose plugin is created and initializes, used in any way from one thread that calls
  -- terminate at the end or not at all, dereferences no null pointer. It calls init first, then asks
  -- for the extensions, then calls for each operation what the extensions have for it, activate with
  -- the audio setup that was set last, and destroys the plugin once, as the last call. Every call has
  -- a plugin that lives, and the plugin is on an audio thread, as it can check, when it is started,
  -- stopped or reset, and else only if the thread did not make the object.
  pub session-live :
      (names : ExtensionNames) (default_rate : ℕ) (h : Hosted) (ops : List Op) (ends : Bool)
      → h.is_created ≡ true
      → h.inits ≡ true
      → never_terminates ops ≡ true
      → session is_main names default_rate h (and_terminates ends ops)
        ≡ some (map (live is_main) (life_of names default_rate h ops))
  unfolding session
  session-live names default_rate h ops ends created inits n =
      let ext = extensions_of names h.extension h.supports_api in
      let first = init ∷ first_entries names h in
      ap
        (λ b. calls_of is_main h (and_terminates ends ops) (
          if b then some (connect_clap is_main names h (new_proxy is_main default_rate)) else none))
        created
      ∙ ap (λ p. calls_after is_main (run is_main h (and_terminates ends ops) p))
          (connect_clap-alive names default_rate h inits)
      ∙ run-alive ext h ops ends (first_setup default_rate) (map (live is_main) first) n
      ∙ ap some (
          sym (
            map-append first (entries_of_all ext h ops (first_setup default_rate) ++ destroy ∷ [])))
