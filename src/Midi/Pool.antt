-- ===== src/Midi/Pool.antt =====
-- The class `SysExBufferPool`. A buffer is the bytes that it holds; a buffer that was handed out is
-- known by its place in the pool, where it stays while the pool grows.
use wrac_plugin_template.Prelude.{
  take-set, append_assoc, append-nil, sym, ℕ, zero, suc, ◌+◌, ◌-◌, ◌≤◌, ◌<◌, ◌≡◌, refl, ap, ◌∙◌,
  List, [], ◌∷◌, ◌++◌, arith, length, set, take, replicate, ltb, ◌==◌, length-append, length-set,
  length-replicate, if◌then◌else◌, max,
}

pub record BufferPool : Type 0 where
  pub buffers : List (List ℕ)
  pub used : ℕ

-- `_buffers.resize(entries)` where it grows.
pub prepare : ℕ → BufferPool → BufferPool
prepare entries s = record {
  buffers =
      if ltb (length s.buffers) entries
      then s.buffers ++ replicate (entries - length s.buffers) []
      else s.buffers;
  used = 0;
}

abbrev pub grow : BufferPool → List (List ℕ)
grow s = if s.used == length s.buffers then s.buffers ++ [] ∷ [] else s.buffers

-- The place of the buffer that is handed out, and the pool; `bytes` is `data[0 .. size)`.
pub acquire : List ℕ → BufferPool → ℕ × BufferPool
acquire bytes s = (s.used, record { buffers = set (grow s) s.used bytes; used = s.used + 1 })

pub reset : BufferPool → BufferPool
reset s = record s { used = 0 }

-- One cycle: the payloads in the order in which they are acquired.
pub acquire_all : List (List ℕ) → BufferPool → BufferPool
acquire_all [] s = s
acquire_all (p ∷ ps) s = acquire_all ps (acquire p s).1

length-grow : (s : BufferPool) → s.used ≤ length s.buffers → s.used < length (grow s)
length-grow s h = ground (arith, length-append s.buffers ([] ∷ []))

take-grow : (bs : List (List ℕ)) (n : ℕ) → n ≤ length bs → take n (bs ++ [] ∷ []) ≡ take n bs
take-grow bs zero h = refl
take-grow [] (suc n) h = absurd (omega arith)
take-grow (x ∷ bs) (suc n) h = ap (◌∷◌ x) (take-grow bs n (omega arith))

module _ (p : List ℕ) (s : BufferPool) (h : s.used ≤ length s.buffers) where
  used-acquire : (acquire p s).1.used ≤ length (acquire p s).1.buffers
  unfolding acquire
  used-acquire = omega (arith, length-grow s h, length-set (grow s) s.used p)

  length-acquire : length (acquire p s).1.buffers ≡ max (length s.buffers) (s.used + 1)
  unfolding acquire
  length-acquire = ground (arith, length-append s.buffers ([] ∷ []), length-set (grow s) s.used p)

  take-acquire : take (acquire p s).1.used (acquire p s).1.buffers ≡ take s.used s.buffers ++ p ∷ []
  unfolding acquire
  take-acquire =
      take-set (grow s) s.used p (length-grow s h)
      ∙ ap (λ (l : List (List ℕ)). l ++ p ∷ []) (ground (arith, take-grow s.buffers s.used))

-- After a cycle every payload that was acquired in it still stands in its buffer, in order, and the
-- pool has grown only if the cycle holds more payloads than it had buffers.
pub acquire_all_lem :
    (ps : List (List ℕ)) (s : BufferPool)
    → s.used ≤ length s.buffers
    → let s' = acquire_all ps s in
      (take s'.used s'.buffers ≡ take s.used s.buffers ++ ps)
      × (s'.used ≡ s.used + length ps)
      × (length s'.buffers ≡ max (length s.buffers) (s.used + length ps))
unfolding acquire_all
acquire_all_lem [] s h = (sym (append-nil (take s.used s.buffers)), omega arith, omega arith)
acquire_all_lem (p ∷ ps) s h =
    let (held, count, size) = acquire_all_lem ps (acquire p s).1 (used-acquire p s h) in
    (
      held
          ∙ ap (λ (l : List (List ℕ)). l ++ ps) (take-acquire p s h)
          ∙ append_assoc (take s.used s.buffers) (p ∷ []) ps,
      count ∙ counted,
      size ∙ omega (arith, length-acquire p s h, next),
    )
  where
    next : (acquire p s).1.used ≡ s.used + 1
    next = unfold acquire in refl

    counted : (acquire p s).1.used + length ps ≡ s.used + suc (length ps)
    counted = omega (arith, next)

-- `prepare` and `reset` start a cycle in which the buffers that were there are used again.
pub prepare_cycle :
    (entries : ℕ) (ps : List (List ℕ)) (s : BufferPool)
    → let s' = acquire_all ps (prepare entries s) in
      (take (length ps) s'.buffers ≡ ps)
      × (length s'.buffers ≡ max (max (length s.buffers) entries) (length ps))
unfolding prepare
prepare_cycle entries ps s =
    let (held, count, size) = acquire_all_lem ps (prepare entries s) (omega arith) in
    let all : (acquire_all ps (prepare entries s)).used ≡ length ps = omega (arith, count) in
    (
      rw all at held,
      size
          ∙ ground (
            arith,
            length-append s.buffers (replicate (entries - length s.buffers) []),
            length-replicate {A = List ℕ} (entries - length s.buffers) [],
          ),
    )
