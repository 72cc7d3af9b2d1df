-- ===== src/Vst3/SysEx/Storage.antt =====
-- The payloads of a block stay in the buffer until the host reads them.
use wrac_plugin_template.Prelude.{
  append-nil, Option-cases, inr, inl, Bool-cases, append_assoc, sym, ◌||◌, ◌+◌, ◌≤◌, ◌≡◌, refl, ap,
  ap₂, ◌∙◌, arith, ℕ, Bool, false, List, [], ◌∷◌, ◌++◌, length, drop, Option, none, some,
  if◌then◌else◌,
}
use wrac_plugin_template.Prelude.Int.{ℤ, is_negative}
use wrac_plugin_template.Vst3.Output.{
  Floats, Header, Body, note_on, note_off, legacy_midi_cc_out, midi_sys_ex, VstEvent,
  create_output_event, output_bus_index, push_vst_output_event,
}
use wrac_plugin_template.Vst3.SysEx.{
  SysexEvent, SysexOutput, sysex_output_capacity, memcpy, is_refused, Queue, store_and_push,
  enqueue_sysex_output_event, enqueue_all,
}
use wrac_plugin_template.Vst3.SysEx.Regions.{
  collect, length-memcpy, or_false, region, region-before, region-here,
}

module _ (floats : Floats) where
  abbrev pub payload_of : List ℕ → Body floats → List (List ℕ)
  payload_of bytes (note_on c k v i) = []
  payload_of bytes (note_off c k v i) = []
  payload_of bytes (legacy_midi_cc_out c k v w) = []
  payload_of bytes (midi_sys_ex at n) = region bytes at n ∷ []

  -- The payloads of the events that the host holds, in order.
  abbrev pub payloads : List ℕ → List (VstEvent floats) → List (List ℕ)
  payloads bytes [] = []
  payloads bytes (e ∷ es) = payload_of bytes e.body ++ payloads bytes es

  abbrev pub Lies : ℕ → Body floats → Type 0
  Lies used (note_on c k v i) = Unit {0}
  Lies used (note_off c k v i) = Unit
  Lies used (legacy_midi_cc_out c k v w) = Unit
  Lies used (midi_sys_ex at n) = at + n ≤ used

  abbrev pub AllLie : ℕ → List (VstEvent floats) → Type 0
  AllLie used [] = Unit
  AllLie used (e ∷ es) = Lies used e.body × AllLie used es

  -- The list of the host, which is empty if there is none.
  abbrev pub held : Option (List (VstEvent floats)) → List (VstEvent floats)
  held none = []
  held (some es) = es

  -- The buffer keeps its length, its used part fits, and every payload lies in the used part.
  pub record IsStored (s : SysexOutput) (es : List (VstEvent floats)) : Type 0 where
    pub length_bytes : length s.bytes ≡ sysex_output_capacity
    pub size_le : s.size ≤ sysex_output_capacity
    pub lies : AllLie s.size es

  payload_of-memcpy :
      (bytes source : List ℕ) (used : ℕ) (b : Body floats)
      → used ≤ length bytes
      → Lies used b
      → payload_of (memcpy bytes used source) b ≡ payload_of bytes b
  payload_of-memcpy bytes source used (note_on c k v i) l a = refl
  payload_of-memcpy bytes source used (note_off c k v i) l a = refl
  payload_of-memcpy bytes source used (legacy_midi_cc_out c k v w) l a = refl
  payload_of-memcpy bytes source used (midi_sys_ex at n) l a =
      ap (λ r. r ∷ [])
        (region-before bytes (source ++ drop (used + length source) bytes) used at n a l)

  payloads-memcpy :
      (bytes source : List ℕ) (used : ℕ) (es : List (VstEvent floats))
      → used ≤ length bytes
      → AllLie used es
      → payloads (memcpy bytes used source) es ≡ payloads bytes es
  payloads-memcpy bytes source used [] l a = refl
  payloads-memcpy bytes source used (e ∷ es) l a =
      ap₂ (◌++◌) (payload_of-memcpy bytes source used e.body l a.0)
        (payloads-memcpy bytes source used es l a.1)

  payloads-append :
      (bytes : List ℕ) (es fs : List (VstEvent floats))
      → payloads bytes (es ++ fs) ≡ payloads bytes es ++ payloads bytes fs
  payloads-append bytes [] fs = refl
  payloads-append bytes (e ∷ es) fs =
      ap (◌++◌ (payload_of bytes e.body)) (payloads-append bytes es fs)
      ∙ sym (append_assoc (payload_of bytes e.body) (payloads bytes es) (payloads bytes fs))

  Lies-le : (a b : ℕ) (body : Body floats) → a ≤ b → Lies a body → Lies b body
  Lies-le a b (note_on c k v i) h l = l
  Lies-le a b (note_off c k v i) h l = l
  Lies-le a b (legacy_midi_cc_out c k v w) h l = l
  Lies-le a b (midi_sys_ex at n) h l = omega arith

  AllLie-le : (a b : ℕ) (es : List (VstEvent floats)) → a ≤ b → AllLie a es → AllLie b es
  AllLie-le a b [] h l = l
  AllLie-le a b (e ∷ es) h l = (Lies-le a b e.body h l.0, AllLie-le a b es h l.1)

  AllLie-append :
      (a : ℕ) (es fs : List (VstEvent floats)) → AllLie a es → AllLie a fs → AllLie a (es ++ fs)
  AllLie-append a [] fs h l = l
  AllLie-append a (e ∷ es) fs h l = (h.0, AllLie-append a es fs h.1 l)

  module _ (add_event : List (VstEvent floats) → VstEvent floats → Bool)
      (bus_by_port : List ℤ) where
    -- What a call leaves: the buffer as it should be, and one payload more if it returned true.
    abbrev pub Keeps :
        Option (List ℕ)
        → List (List ℕ)
        → Bool × SysexOutput × Queue floats add_event bus_by_port
        → Type 0
    Keeps message before r =
        IsStored r.1 (held r.2)
        × (payloads r.1.bytes (held r.2)
            ≡ (if r.0 then before ++ elim message [ none ↦ [] | some b ↦ b ∷ [] ] else before))

    module _ (b : List ℕ) (s : SysexOutput) (es : List (VstEvent floats)) (v : IsStored s es)
        (h : s.size + length b ≤ sysex_output_capacity) where
      copy : List ℕ
      copy = memcpy s.bytes s.size b

      length-copy : length copy ≡ sysex_output_capacity
      unfolding copy
      length-copy = length-memcpy s.bytes b s.size (omega (arith, v.length_bytes)) ∙ v.length_bytes

      payloads-copy : payloads copy es ≡ payloads s.bytes es
      unfolding copy
      payloads-copy =
          payloads-memcpy s.bytes b s.size es (omega (arith, v.length_bytes, v.size_le)) v.lies

      region-copy : region copy s.size (length b) ≡ b
      unfolding copy
      region-copy =
          region-here s.bytes b (drop (s.size + length b) s.bytes) s.size
            (omega (arith, v.length_bytes, v.size_le))

      -- A refused push.
      kept-IsStored : IsStored (record { bytes = copy; size = s.size }) es
      kept-IsStored = record { length_bytes = length-copy; size_le = v.size_le; lies = v.lies }

      module _ (header : Header) (bus : ℤ) where
        abbrev output : VstEvent floats
        output = create_output_event floats header bus (midi_sys_ex s.size (length b))

        sent-IsStored :
            IsStored (record { bytes = copy; size = s.size + length b }) (es ++ output ∷ [])
        sent-IsStored = record {
          length_bytes = length-copy;
          size_le = h;
          lies =
              AllLie-append (s.size + length b) es (output ∷ [])
                (AllLie-le s.size (s.size + length b) es (omega arith) v.lies) (omega arith);
        }

        payloads-sent : payloads copy (es ++ output ∷ []) ≡ payloads s.bytes es ++ b ∷ []
        payloads-sent =
            payloads-append copy es (output ∷ [])
            ∙ ap₂ (◌++◌) payloads-copy (ap (λ r. r ∷ []) region-copy)

    store_and_push-Keeps :
        (e : SysexEvent) (b : List ℕ) (s : SysexOutput) (q : Queue floats add_event bus_by_port)
        → IsStored s (held q)
        → s.size + length b ≤ sysex_output_capacity
        → Keeps
            (some b)
            (payloads s.bytes (held q))
            (store_and_push floats add_event bus_by_port e b s q)
    unfolding store_and_push push_vst_output_event copy
    store_and_push-Keeps e b s none v h = (kept-IsStored b s [] v h, refl)
    store_and_push-Keeps e b s (some es) v h =
        let bus = output_bus_index bus_by_port e.port_index in
        elim (Bool-cases (add_event es (output b s es v h e.header bus))) [
          | inl c ↦
              rw c (sent-IsStored b s es v h e.header bus, payloads-sent b s es v h e.header bus)
          | inr c ↦ rw c (kept-IsStored b s es v h, payloads-copy b s es v h)
        ]

    -- The guard, where the used part fits.
    fits :
        (b : List ℕ) (s : SysexOutput)
        → s.size ≤ sysex_output_capacity
        → is_refused b s.size ≡ false
        → s.size + length b ≤ sysex_output_capacity
    fits b s l n = ground arith

    enqueue-Keeps :
        (e : SysexEvent) (s : SysexOutput) (q : Queue floats add_event bus_by_port)
        → IsStored s (held q)
        → Keeps e.buffer
            (payloads s.bytes (held q))
            (enqueue_sysex_output_event floats add_event bus_by_port e s q)
    unfolding enqueue_sysex_output_event
    enqueue-Keeps e s q v = elim (Option-cases e.buffer) [
      | inl c ↦ rw c (v, refl)
      | inr (b, c) ↦
          rw c
            (elim (Bool-cases
              (is_negative (output_bus_index bus_by_port e.port_index) || is_refused b s.size)) [
                | inl refused ↦ rw refused (v, refl)
                | inr taken ↦ rw taken (
                    store_and_push-Keeps (record e { buffer = some b }) b s q v
                      (fits b s v.size_le (or_false _ _ taken)))
              ])
    ]

    -- In a sequence of calls, the host holds the payloads of those that returned true, in order and
    -- unchanged, after those that it held; the used part of the buffer never exceeds its capacity.
    pub enqueue_all-IsStored :
        (es : List SysexEvent) (s : SysexOutput) (q : Queue floats add_event bus_by_port)
        → IsStored s (held q)
        → let (sent, s', q') = enqueue_all floats add_event bus_by_port es s q in
          IsStored s' (held q') × (payloads s'.bytes (held q') ≡ payloads s.bytes (held q) ++ sent)
    unfolding enqueue_all
    enqueue_all-IsStored [] s q v = (v, sym (append-nil _))
    enqueue_all-IsStored (e ∷ es) s q v =
        let (stored, one) = enqueue-Keeps e s q v in
        let r = enqueue_sysex_output_event floats add_event bus_by_port e s q in
        let (stored_all, all) = enqueue_all-IsStored es r.1 r.2 stored in
        let rest = (enqueue_all floats add_event bus_by_port es r.1 r.2).0 in
        (
          stored_all,
          all ∙ ap (λ p. p ++ rest) one ∙ collect e.buffer (payloads s.bytes (held q)) rest r.0,
        )
