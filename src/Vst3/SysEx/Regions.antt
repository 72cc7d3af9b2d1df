-- ===== src/Vst3/SysEx/Regions.antt =====
-- What the host reads of the buffer, which later payloads leave alone.
use wrac_plugin_template.Prelude.{
  append-nil, append_assoc, ◌||◌, ◌+◌, ◌≤◌, ◌≡◌, refl, ap, ◌∙◌, arith, zero, suc, ℕ, Bool, true,
  false, List, [], ◌∷◌, ◌++◌, length, take, drop, Option, none, some, if◌then◌else◌, length-append,
  length-take, length-drop, take-append,
}
use wrac_plugin_template.Vst3.SysEx.{memcpy}

-- What the host reads at a place of the buffer.
abbrev pub region : List ℕ → ℕ → ℕ → List ℕ
region bytes at n = take n (drop at bytes)

pub region-before :
    (bytes rest : List ℕ) (at o n : ℕ)
    → o + n ≤ at
    → at ≤ length bytes
    → region (take at bytes ++ rest) o n ≡ region bytes o n
region-before bytes rest zero zero zero h l = refl
region-before bytes rest zero zero (suc n) h l = absurd (omega arith)
region-before bytes rest zero (suc o) n h l = absurd (omega arith)
region-before [] rest (suc at) o n h l = absurd (omega arith)
region-before (x ∷ xs) rest (suc at) (suc o) n h l =
    region-before xs rest at o n (omega arith) (omega arith)
region-before (x ∷ xs) rest (suc at) zero zero h l = refl
region-before (x ∷ xs) rest (suc at) zero (suc n) h l =
    ap (◌∷◌ x) (region-before xs rest at zero n (omega arith) (omega arith))

pub region-here :
    (bytes source rest : List ℕ) (at : ℕ)
    → at ≤ length bytes
    → region (take at bytes ++ (source ++ rest)) at (length source) ≡ source
region-here bytes source rest zero l = take-append (length source) source rest refl
region-here [] source rest (suc at) l = absurd (omega arith)
region-here (x ∷ xs) source rest (suc at) l = region-here xs source rest at (omega arith)

pub length-memcpy :
    (to source : List ℕ) (at : ℕ)
    → at + length source ≤ length to
    → length (memcpy to at source) ≡ length to
length-memcpy to source at h =
    length-append (take at to) (source ++ drop (at + length source) to)
    ∙ omega (
      arith,
      length-append source (drop (at + length source) to),
      length-take at to,
      length-drop (at + length source) to,
    )

pub or_false : (a b : Bool) → (a || b) ≡ false → b ≡ false
or_false a b h = ground arith

pub collect :
    (message : Option (List ℕ)) (before rest : List (List ℕ)) (done : Bool)
    → (if done then before ++ elim message [ none ↦ [] | some b ↦ b ∷ [] ] else before) ++ rest
      ≡ before ++ (if done then elim message [ none ↦ rest | some b ↦ b ∷ rest ] else rest)
collect none before rest true = ap (λ p. p ++ rest) (append-nil before)
collect none before rest false = refl
collect (some b) before rest true = append_assoc before (b ∷ []) rest
collect (some b) before rest false = refl
