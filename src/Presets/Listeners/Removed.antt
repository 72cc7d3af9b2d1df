-- ===== src/Presets/Listeners/Removed.antt =====
-- A listener whose removal has returned is not called any more.
use wrac_plugin_template.Prelude.{
  ℕ, ◌+◌, ◌<◌, Bool, true, false, ◌==◌, ◌||◌, ◌&&◌, not, Bool-cases, inl, inr, if◌then◌else◌, List,
  [], ◌∷◌, Option, none, some, ◌≡◌, refl, ◌∙◌, arith,
}
use wrac_plugin_template.Presets.Listeners.{
  mem, is_calling, may_return, Listeners, fresh, erased, find_listener, looked, Step, registers,
  reads_flag, erases, returns, stores_flag, takes_ceiling, looks, call_ends, Reach, start, next,
}
use wrac_plugin_template.Presets.Listeners.Tokens.{mem-snoc}

abbrev pub count : ℕ → List ℕ → ℕ
count t [] = 0
count t (x ∷ xs) = (if x == t then 1 else 0) + count t xs

mem-erased_self : (t : ℕ) (xs : List ℕ) → mem (erased t xs) t ≡ false
unfolding erased
mem-erased_self t [] = refl
mem-erased_self t (x ∷ xs) = ground (arith, mem-erased_self t xs)

mem-erased-le : (u t : ℕ) (xs : List ℕ) → mem xs t ≡ false → mem (erased u xs) t ≡ false
unfolding erased
mem-erased-le u t [] m = refl
mem-erased-le u t (x ∷ xs) m = ground (arith, mem-erased-le u t xs)

find-mem :
    (last ceiling u : ℕ) (xs : List ℕ) → find_listener last ceiling xs ≡ some u → mem xs u ≡ true
unfolding find_listener
find-mem last ceiling u [] e = cc
find-mem last ceiling u (x ∷ xs) e = ground (arith, find-mem last ceiling u xs)

-- A token that a removal has erased is a past one, which is in no list that calls are made from; no
-- call of it runs when the removal has returned to another thread.
record IsErased (t : ℕ) (s : Listeners) : Type 0 where
  unlisted : mem s.leaving t ≡ true → mem s.listeners t ≡ false
  settled : mem s.leaving t ≡ true → mem s.pending t ≡ false
  past : mem s.leaving t ≡ true → t < s.next_token
  left : (mem s.removed t || mem s.removed_in_call t) ≡ true → mem s.leaving t ≡ true
  idle : mem s.removed t ≡ true → is_calling t s.phase ≡ false

module _ (t : ℕ) where
  looks-IsErased :
      (s : Listeners) (last ceiling : ℕ) (o : Option ℕ)
      → find_listener last ceiling s.listeners ≡ o
      → IsErased t s
      → IsErased t (looked ceiling o s)
  looks-IsErased s last ceiling none f h = record {
    unlisted = h.unlisted;
    settled = h.settled;
    past = h.past;
    left = h.left;
    idle = λ r. refl;
  }
  looks-IsErased s last ceiling (some u) f h = record {
    unlisted = h.unlisted;
    settled = h.settled;
    past = h.past;
    left = h.left;
    idle = λ r. ground (arith, r, h.left, h.unlisted, find-mem last ceiling u s.listeners f);
  }

  Step-IsErased : {s s' : Listeners} → Step s s' → IsErased t s → IsErased t s'
  unfolding may_return
  Step-IsErased (registers s) h = record {
    unlisted = λ l. mem-snoc s.listeners s.next_token t ∙ ground (arith, h.unlisted l, h.past l);
    settled = λ l. ground (arith, h.settled l, h.past l);
    past = λ l. omega (arith, h.past l);
    left = h.left;
    idle = h.idle;
  }
  Step-IsErased (reads_flag s u m) h = record {
    unlisted = h.unlisted;
    settled = λ l. mem-erased-le u t s.pending (h.settled l);
    past = h.past;
    left = h.left;
    idle = h.idle;
  }
  Step-IsErased (erases s u m b) h = record {
    unlisted = λ l.
        ground (arith, h.unlisted, mem-erased-le u t s.listeners, mem-erased_self t s.listeners, l);
    settled = λ l. ground (arith, h.settled, l, m);
    past = λ l. ground (arith, h.past, l, b);
    left = λ r. ground (arith, h.left, r);
    idle = h.idle;
  }
  Step-IsErased (returns s true u m c) h = record {
    unlisted = h.unlisted;
    settled = h.settled;
    past = h.past;
    left = λ r. ground (arith, h.left, r, m);
    idle = h.idle;
  }
  Step-IsErased (returns s false u m c) h = record {
    unlisted = h.unlisted;
    settled = h.settled;
    past = h.past;
    left = λ r. ground (arith, h.left, r, m);
    idle = λ r. elim (Bool-cases (u == t)) [
      | inl e ↦ let same : u ≡ t = ground (arith, e) in ground (arith, rw same at c)
      | inr e ↦ h.idle (ground (arith, r, e))
    ];
  }
  Step-IsErased (stores_flag s e) h = record {
    unlisted = h.unlisted;
    settled = h.settled;
    past = h.past;
    left = h.left;
    idle = λ r. refl;
  }
  Step-IsErased (takes_ceiling s e) h = record {
    unlisted = h.unlisted;
    settled = h.settled;
    past = h.past;
    left = h.left;
    idle = λ r. refl;
  }
  Step-IsErased (looks s last ceiling e) h =
      looks-IsErased s last ceiling (find_listener last ceiling s.listeners) refl h
  Step-IsErased (call_ends s u ceiling e) h = record {
    unlisted = h.unlisted;
    settled = h.settled;
    past = h.past;
    left = h.left;
    idle = λ r. refl;
  }

  -- No call of an erased listener begins, and a removal that has returned stays so.
  abbrev IsQuiet : ℕ → Bool → Listeners → Type 0
  IsQuiet n r s =
      (count t s.called ≡ n) × (mem s.leaving t ≡ true) × ((not r || mem s.removed t) ≡ true)

  looks-IsQuiet :
      (n : ℕ) (r : Bool) (s : Listeners) (last ceiling : ℕ) (o : Option ℕ)
      → find_listener last ceiling s.listeners ≡ o
      → IsErased t s
      → IsQuiet n r s
      → IsQuiet n r (looked ceiling o s)
  looks-IsQuiet n r s last ceiling none f h q = q
  looks-IsQuiet n r s last ceiling (some u) f h q =
      let other : (u == t) ≡ false =
        ground (arith, h.unlisted q.1, find-mem last ceiling u s.listeners f) in
      (rw other (omega (arith, q.0)), q.1, q.2)

  Step-IsQuiet :
      (n : ℕ) (r : Bool) {s s' : Listeners}
      → Step s s'
      → IsErased t s
      → IsQuiet n r s
      → IsQuiet n r s'
  Step-IsQuiet n r (registers s) h q = q
  Step-IsQuiet n r (reads_flag s u m) h q = (ground (arith, q.0, h.settled q.1, m), q.1, q.2)
  Step-IsQuiet n r (erases s u m b) h q = (q.0, ground (arith, q.1), q.2)
  Step-IsQuiet n r (returns s true u m c) h q = q
  Step-IsQuiet n r (returns s false u m c) h q = (q.0, q.1, ground (arith, q.2))
  Step-IsQuiet n r (stores_flag s e) h q = q
  Step-IsQuiet n r (takes_ceiling s e) h q = q
  Step-IsQuiet n r (looks s last ceiling e) h q =
      looks-IsQuiet n r s last ceiling (find_listener last ceiling s.listeners) refl h q
  Step-IsQuiet n r (call_ends s u ceiling e) h q = q

  Reach-IsErased : {s s' : Listeners} → IsErased t s → Reach s s' → IsErased t s'
  Reach-IsErased h start = h
  Reach-IsErased h (next r step) = Step-IsErased step (Reach-IsErased h r)

  Reach-IsQuiet :
      (n : ℕ) (removed : Bool) {s s' : Listeners}
      → IsErased t s
      → IsQuiet n removed s
      → Reach s s'
      → IsQuiet n removed s'
  Reach-IsQuiet n removed h q start = q
  Reach-IsQuiet n removed h q (next r step) =
      Step-IsQuiet n removed step (Reach-IsErased h r) (Reach-IsQuiet n removed h q r)

  fresh-IsErased : IsErased t fresh
  fresh-IsErased = record {
    unlisted = λ l. refl;
    settled = λ l. refl;
    past = λ l. cc;
    left = λ r. cc;
    idle = λ r. refl;
  }

  -- When a removal has returned, no call of the listener begins at any later time, whatever the
  -- threads do and in whatever order; and when it has returned to another thread than the one that
  -- calls the listeners, no call of the listener runs then or later.
  pub removed-Silent :
      {s s' : Listeners}
      → Reach fresh s
      → (mem s.removed t || mem s.removed_in_call t) ≡ true
      → Reach s s'
      → (count t s'.called ≡ count t s.called)
        × ((mem s.removed t && is_calling t s'.phase) ≡ false)
  removed-Silent {s} {s'} r m r' =
      let h = Reach-IsErased fresh-IsErased r in
      let q =
        Reach-IsQuiet (count t s.called) (mem s.removed t) h (refl, h.left m, ground arith) r' in
      (q.0, ground (arith, q.2, (Reach-IsErased h r').idle))
