-- ===== src/Vst3/StreamAdapter/Reader.antt =====
-- What a reader of the adapter sees.
use wrac_plugin_template.Prelude.{
  ◌+◌, sym, ap, ◌∙◌, refl, ◌++◌, zero, suc, none, some, length, ◌<◌, ◌≤◌, [], ◌∷◌, ◌≡◌, ◌⊎◌, inl,
  inr, Option, ℕ, List, arith, length-append,
}
use wrac_plugin_template.Prelude.Int.{ℤ, pos, negsuc}
use wrac_plugin_template.Vst3.StreamAdapter.{
  HostResult, result_ok, result_false, Answer, wanted, returned, read,
}

-- The documented behaviour of a host's stream that does not fail, in which `rest` is what is left to
-- read: a call gives the next bytes and says how many, at most as many as were wanted, and none only
-- at the end. Its answer is `kResultOk` or `kResultFalse`, as it likes.
pub record IsReadable {Stream : Type 0} (host_read : Stream → ℕ → Answer Stream)
    (rest : Stream → List ℕ) : Type 0 where
  pub succeeds :
      (s : Stream) (w : ℕ)
      → (host_read s w).result ≡ result_ok ⊎ (host_read s w).result ≡ result_false
  pub counts : (s : Stream) (w : ℕ) → (host_read s w).count ≡ length (host_read s w).bytes
  pub gives : (s : Stream) (w : ℕ) → rest s ≡ (host_read s w).bytes ++ rest (host_read s w).next
  pub fits : (s : Stream) (w : ℕ) → length (host_read s w).bytes ≤ w
  pub moves : (s : Stream) (w : ℕ) → 0 < w → (host_read s w).bytes ≡ [] → rest s ≡ []

abbrev pub appended : List ℕ → Option (List ℕ) → Option (List ℕ)
appended bytes none = none
appended bytes (some more) = some (bytes ++ more)

-- What a reader makes of one answer, and of what it reads after that.
abbrev pub told : ℤ → List ℕ → Option (List ℕ) → Option (List ℕ)
told (pos zero) bytes more = some []
told (pos (suc n)) bytes more = appended bytes more
told (negsuc n) bytes more = none

-- A reader that does not know the length: it asks until it is told 0, and gives up on an error or
-- after a number of calls.
pub read_to_end :
    {Stream : Type 0} → (Stream → ℕ → Answer Stream) → Stream → ℕ → ℕ → Option (List ℕ)
read_to_end host_read stream size zero = none
read_to_end host_read stream size (suc calls) =
    let answer = read host_read stream size in
    told answer.0 answer.1 (read_to_end host_read answer.2 size calls)

wanted-pos : (size : ℕ) → 0 < size → 0 < wanted size
unfolding wanted
wanted-pos size h = ground arith

returned-ok : (r : HostResult) (n : ℕ) → r ≡ result_ok ⊎ r ≡ result_false → returned r n ≡ pos n
unfolding returned
returned-ok r n (inl e) = rw e refl
returned-ok r n (inr e) = rw e refl

told-all :
    (bytes later : List ℕ) (more : Option (List ℕ))
    → (bytes ≡ [] → later ≡ [])
    → (0 < length bytes → more ≡ some later)
    → told (pos (length bytes)) bytes more ≡ some (bytes ++ later)
told-all [] later more ends goes = ap some (sym (ends refl))
told-all (b ∷ bytes) later more ends goes = ap (appended (b ∷ bytes)) (goes (omega arith))

-- From a host whose stream does not fail, a reader that asks for any positive number of bytes until
-- it is told 0 has read exactly what was left after one call more than the number of its bytes, at
-- most.
pub read_to_end_lem :
    {Stream : Type 0} {host_read : Stream → ℕ → Answer Stream} {rest : Stream → List ℕ}
    → IsReadable host_read rest
    → (s : Stream) (size calls : ℕ) → 0 < size
    → length (rest s) < calls
    → read_to_end host_read s size calls ≡ some (rest s)
unfolding read_to_end read
read_to_end_lem h s size zero p q = absurd (omega arith)
read_to_end_lem {host_read = f} {rest = rest} h s size (suc calls) p q =
    let a = f s (wanted size) in
    let value : returned a.result a.count ≡ pos (length a.bytes) =
      returned-ok a.result a.count (h.succeeds s (wanted size))
      ∙ ap pos (h.counts s (wanted size)) in
    let given : length (rest s) ≡ length a.bytes + length (rest a.next) =
      ap length (h.gives s (wanted size)) ∙ length-append a.bytes (rest a.next) in
    let ends : a.bytes ≡ [] → rest a.next ≡ [] = λ e.
      sym (ap (λ b. b ++ rest a.next) e)
      ∙ sym (h.gives s (wanted size))
      ∙ h.moves s (wanted size) (wanted-pos size p) e in
    let goes : 0 < length a.bytes → read_to_end f a.next size calls ≡ some (rest a.next) =
      λ m. read_to_end_lem h a.next size calls p (omega arith) in
    ap (λ v. told v a.bytes (read_to_end f a.next size calls)) value
    ∙ told-all a.bytes (rest a.next) (read_to_end f a.next size calls) ends goes
    ∙ ap some (sym (h.gives s (wanted size)))
