-- ===== src/Presets/Listeners/Told.antt =====
-- Every listener that stays is told.
use wrac_plugin_template.Prelude.{
  ℕ, ◌<◌, true, false, ◌||◌, Option, none, some, ◌≡◌, refl, ◌∙◌, arith,
}
use wrac_plugin_template.Presets.Listeners.{
  mem, looking, finished, Listeners, fresh, find_listener, register, read_flag, erase, looked, Step,
  registers, reads_flag, erases, returns, stores_flag, takes_ceiling, looks, call_ends, Reach,
  start, next,
}
use wrac_plugin_template.Presets.Listeners.Tokens.{
  AreBetween, AreBetween-erased, AreBetween-snoc, ahead-unset, find-none, find-some, is_ahead,
  is_set, mem-erased_ne, mem-snoc,
}

-- What holds at all times, of the listeners and of the token `t`.
pub record IsTold (t : ℕ) (s : Listeners) : Type 0 where
  pub started : 0 < s.next_token
  pub flag : s.complete ≡ is_set s.phase
  pub ordered : AreBetween 0 s.next_token s.listeners
  pub known : 0 < t → t < s.next_token → mem s.leaving t ≡ false → mem s.listeners t ≡ true
  pub told :
      0 < t
      → t < s.next_token
      → mem s.leaving t ≡ false
      → (mem s.called t || (mem s.pending t || is_ahead t s.phase)) ≡ true

module _ (t : ℕ) where
  register-IsTold : (s : Listeners) → IsTold t s → IsTold t (register s)
  register-IsTold s h = record {
    started = omega (arith, h.started);
    flag = h.flag;
    ordered = AreBetween-snoc 0 s.next_token s.listeners h.started h.ordered;
    known = λ p l n. mem-snoc s.listeners s.next_token t ∙ ground (arith, h.known p, n);
    told = λ p l n. ground (arith, h.told p, n);
  }

  read_flag-IsTold : (s : Listeners) (u : ℕ) → IsTold t s → IsTold t (read_flag u s)
  read_flag-IsTold s u h = record {
    started = h.started;
    flag = h.flag;
    ordered = h.ordered;
    known = h.known;
    told = λ p l n.
        ground (arith, h.told p l n, h.flag, ahead-unset t s.phase, mem-erased_ne s.pending u t);
  }

  erase-IsTold : (s : Listeners) (u : ℕ) → IsTold t s → IsTold t (erase u s)
  erase-IsTold s u h = record {
    started = h.started;
    flag = h.flag;
    ordered = AreBetween-erased 0 s.next_token u s.listeners h.ordered;
    known = λ p l n. ground (arith, h.known p l, n, mem-erased_ne s.listeners u t);
    told = λ p l n. ground (arith, h.told p l, n);
  }

  looks-IsTold :
      (s : Listeners) (last ceiling : ℕ)
      → s.phase ≡ looking last ceiling
      → IsTold t s
      → IsTold t (looked ceiling (find_listener last ceiling s.listeners) s)
  looks-IsTold s last ceiling e h = go (find_listener last ceiling s.listeners) refl
    where
      go :
          (o : Option ℕ)
          → find_listener last ceiling s.listeners ≡ o
          → IsTold t (looked ceiling o s)
      go none f = record {
        started = h.started;
        flag = ground (arith, h.flag, e);
        ordered = h.ordered;
        known = h.known;
        told = λ p l n.
            ground (arith, h.told p l n, h.known p l n, e, find-none last ceiling t s.listeners f);
      }
      go (some u) f = record {
        started = h.started;
        flag = ground (arith, h.flag, e);
        ordered = h.ordered;
        known = h.known;
        told = λ p l n. ground (
          arith,
          h.told p l n,
          h.known p l n,
          e,
          find-some last ceiling t u 0 s.next_token s.listeners h.ordered f,
        );
      }

  Step-IsTold : {s s' : Listeners} → Step s s' → IsTold t s → IsTold t s'
  Step-IsTold (registers s) h = register-IsTold s h
  Step-IsTold (reads_flag s u m) h = read_flag-IsTold s u h
  Step-IsTold (erases s u m b) h = erase-IsTold s u h
  Step-IsTold (returns s true u m c) h = record {
    started = h.started;
    flag = h.flag;
    ordered = h.ordered;
    known = h.known;
    told = h.told;
  }
  Step-IsTold (returns s false u m c) h = record {
    started = h.started;
    flag = h.flag;
    ordered = h.ordered;
    known = h.known;
    told = h.told;
  }
  Step-IsTold (stores_flag s e) h = record {
    started = h.started;
    flag = refl;
    ordered = h.ordered;
    known = h.known;
    told = λ p l n. ground (arith, h.told p l n, e);
  }
  Step-IsTold (takes_ceiling s e) h = record {
    started = h.started;
    flag = ground (arith, h.flag, e);
    ordered = h.ordered;
    known = h.known;
    told = λ p l n. ground (arith, h.told p l n, e);
  }
  Step-IsTold (looks s last ceiling e) h = looks-IsTold s last ceiling e h
  Step-IsTold (call_ends s u ceiling e) h = record {
    started = h.started;
    flag = ground (arith, h.flag, e);
    ordered = h.ordered;
    known = h.known;
    told = λ p l n. ground (arith, h.told p l n, e);
  }

  Reach-IsTold : {s s' : Listeners} → IsTold t s → Reach s s' → IsTold t s'
  Reach-IsTold h start = h
  Reach-IsTold h (next r step) = Step-IsTold step (Reach-IsTold h r)

  fresh-IsTold : IsTold t fresh
  fresh-IsTold = record {
    started = omega arith;
    flag = refl;
    ordered = tt;
    known = λ p l n. absurd (omega arith);
    told = λ p l n. absurd (omega arith);
  }

  -- When the crawl thread is past the loop of `finish`, whatever other threads did meanwhile and in
  -- whatever order, every listener that was registered, whose registration has returned and that no
  -- removal has erased, was called.
  pub finished-Told :
      {s : Listeners}
      → Reach fresh s
      → s.phase ≡ finished
      → 0 < t
      → t < s.next_token
      → mem s.pending t ≡ false
      → mem s.leaving t ≡ false
      → mem s.called t ≡ true
  finished-Told {s} r f p l q n =
      let h = Reach-IsTold fresh-IsTold r in ground (arith, h.told p l n, f, q)
