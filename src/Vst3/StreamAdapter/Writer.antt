-- ===== src/Vst3/StreamAdapter/Writer.antt =====
-- What a writer to the adapter achieves.
use wrac_plugin_template.Prelude.{
  sym, ap, ◌∙◌, refl, ◌++◌, zero, suc, none, some, length, ◌<◌, ◌≤◌, ◌^◌, ◌-◌, [], ◌∷◌, ◌≡◌, Option,
  ℕ, List, arith, take, drop, length-drop, take-append-drop, append-nil, append_assoc,
}
use mathlib.Core.Option
use wrac_plugin_template.Prelude.Int.{ℤ, pos, negsuc}
use wrac_plugin_template.Vst3.StreamAdapter.{result_ok, Answer, int32_of, write_returned, write}

-- The documented behaviour of a host's stream that does not fail, in which `content` is what was
-- written: a call that is told the length of its buffer takes some of its first bytes, none only if
-- it is empty, and says how many.
pub record IsWritable {Stream : Type 0} (host_write : Stream → ℤ → List ℕ → Answer Stream)
    (content : Stream → List ℕ) : Type 0 where
  pub succeeds : (s : Stream) (b : List ℕ) → (host_write s (pos (length b)) b).result ≡ result_ok
  pub takes :
      (s : Stream) (b : List ℕ)
      → content (host_write s (pos (length b)) b).next
        ≡ content s ++ take (host_write s (pos (length b)) b).count b
  pub moves : (s : Stream) (b : List ℕ) → 0 < length b → 0 < (host_write s (pos (length b)) b).count

-- What a writer makes of one answer, with the way that it goes on.
abbrev pub written :
    {Stream : Type 0} → ℤ → Stream → List ℕ → (Stream → List ℕ → Option Stream) → Option Stream
written (pos n) stream buffer go_on = go_on stream (drop n buffer)
written (negsuc n) stream buffer go_on = none

-- A writer that goes on with what was not taken. The bound is on the number of calls.
pub write_all :
    {Stream : Type 0} → (Stream → ℤ → List ℕ → Answer Stream) → Stream → List ℕ → ℕ → Option Stream
write_all host_write stream [] calls = some stream
write_all host_write stream (b ∷ buffer) zero = none
write_all host_write stream (b ∷ buffer) (suc calls) =
    let answer = write host_write stream (b ∷ buffer) in
    written answer.0 answer.1 (b ∷ buffer) (λ s rest. write_all host_write s rest calls)

int32_of-small : (size : ℕ) → size < 2 ^ 31 → int32_of size ≡ pos size
unfolding int32_of
int32_of-small size h = ground arith

write-small :
    {Stream : Type 0} {host_write : Stream → ℤ → List ℕ → Answer Stream} {content : Stream → List ℕ}
    → IsWritable host_write content
    → (s : Stream) (b : List ℕ) → length b < 2 ^ 31
    → write host_write s b
      ≡ (pos (host_write s (pos (length b)) b).count, (host_write s (pos (length b)) b).next)
unfolding write write_returned
write-small h s b p = rw (int32_of-small (length b) p, h.succeeds s b) refl

-- To a host whose stream does not fail, a writer with fewer than 2 ^ 31 bytes, which goes on with
-- what was not taken, has written all of its bytes in their order after as many calls as bytes, at
-- most.
pub write_all_lem :
    {Stream : Type 0} {host_write : Stream → ℤ → List ℕ → Answer Stream} {content : Stream → List ℕ}
    → IsWritable host_write content
    → (s : Stream) (b : List ℕ) (calls : ℕ) → length b < 2 ^ 31
    → length b ≤ calls
    → Option.map content (write_all host_write s b calls) ≡ some (content s ++ b)
unfolding write_all
write_all_lem {content = c} h s [] calls p q = ap some (sym (append-nil (c s)))
write_all_lem h s (x ∷ b) zero p q = absurd (omega arith)
write_all_lem {host_write = f} {content = c} h s (x ∷ b) (suc calls) p q =
    let a = f s (pos (length (x ∷ b))) (x ∷ b) in
    let moved : 0 < a.count = h.moves s (x ∷ b) (omega arith) in
    let left : length (drop a.count (x ∷ b)) ≡ length (x ∷ b) - a.count =
      length-drop a.count (x ∷ b) in
    ap (λ r. Option.map c (written r.0 r.1 (x ∷ b) (λ s rest. write_all f s rest calls)))
      (write-small h s (x ∷ b) p)
    ∙ write_all_lem h a.next (drop a.count (x ∷ b)) calls (omega arith) (omega arith)
    ∙ ap (λ m. some (m ++ drop a.count (x ∷ b))) (h.takes s (x ∷ b))
    ∙ ap some (append_assoc (c s) (take a.count (x ∷ b)) (drop a.count (x ∷ b)))
    ∙ ap (λ m. some (c s ++ m)) (take-append-drop a.count (x ∷ b))
