-- ===== src/Vst3/StreamAdapter/Tests.antt =====
-- A host that reads two bytes at most at a time and answers `kResultFalse` at the end, as Cubase
-- does, and that writes three at most.
use wrac_plugin_template.Prelude.{
  ◌^◌, refl, ◌++◌, zero, suc, some, length, ◌<◌, ◌≤◌, [], ◌∷◌, ◌≡◌, ◌⊎◌, inl, inr, ℕ, List, arith,
  take, min,
}
use mathlib.Core.Option
use mathlib.Core.List.{cons-ne-nil}
use wrac_plugin_template.Prelude.Int.{ℤ, pos}
use wrac_plugin_template.Vst3.StreamAdapter.{
  result_ok, result_false, Answer, wanted, read, write, returned, write_returned, int32_of,
}
use wrac_plugin_template.Vst3.StreamAdapter.Reader.{IsReadable, read_to_end, read_to_end_lem}
use wrac_plugin_template.Vst3.StreamAdapter.Writer.{IsWritable, write_all, write_all_lem}

abbrev two_at_most : List ℕ → ℕ → Answer (List ℕ)
two_at_most [] w = record { result = result_false; count = 0; bytes = []; next = [] }
two_at_most (x ∷ s) zero = record { result = result_ok; count = 0; bytes = []; next = x ∷ s }
two_at_most (x ∷ []) (suc w) = record {
  result = result_false;
  count = 1;
  bytes = x ∷ [];
  next = [];
}
two_at_most (x ∷ y ∷ s) (suc zero) = record {
  result = result_ok;
  count = 1;
  bytes = x ∷ [];
  next = y ∷ s;
}
two_at_most (x ∷ y ∷ s) (suc (suc w)) = record {
  result = result_ok;
  count = 2;
  bytes = x ∷ y ∷ [];
  next = s;
}

succeeds :
    (s : List ℕ) (w : ℕ)
    → (two_at_most s w).result ≡ result_ok ⊎ (two_at_most s w).result ≡ result_false
succeeds [] w = inr refl
succeeds (x ∷ s) zero = inl refl
succeeds (x ∷ []) (suc w) = inr refl
succeeds (x ∷ y ∷ s) (suc zero) = inl refl
succeeds (x ∷ y ∷ s) (suc (suc w)) = inl refl

counts : (s : List ℕ) (w : ℕ) → (two_at_most s w).count ≡ length (two_at_most s w).bytes
counts [] w = refl
counts (x ∷ s) zero = refl
counts (x ∷ []) (suc w) = refl
counts (x ∷ y ∷ s) (suc zero) = refl
counts (x ∷ y ∷ s) (suc (suc w)) = refl

gives : (s : List ℕ) (w : ℕ) → s ≡ (two_at_most s w).bytes ++ (two_at_most s w).next
gives [] w = refl
gives (x ∷ s) zero = refl
gives (x ∷ []) (suc w) = refl
gives (x ∷ y ∷ s) (suc zero) = refl
gives (x ∷ y ∷ s) (suc (suc w)) = refl

fits : (s : List ℕ) (w : ℕ) → length (two_at_most s w).bytes ≤ w
fits [] w = omega arith
fits (x ∷ s) zero = omega arith
fits (x ∷ []) (suc w) = omega arith
fits (x ∷ y ∷ s) (suc zero) = omega arith
fits (x ∷ y ∷ s) (suc (suc w)) = omega arith

moves : (s : List ℕ) (w : ℕ) → 0 < w → (two_at_most s w).bytes ≡ [] → s ≡ []
moves [] w p e = refl
moves (x ∷ s) zero p e = absurd (omega arith)
moves (x ∷ []) (suc w) p e = e
moves (x ∷ y ∷ s) (suc zero) p e = absurd (cons-ne-nil x [] e)
moves (x ∷ y ∷ s) (suc (suc w)) p e = absurd (cons-ne-nil x (y ∷ []) e)

two_at_most-IsReadable : IsReadable two_at_most (λ s. s)
two_at_most-IsReadable = record {
  succeeds = succeeds;
  counts = counts;
  gives = gives;
  fits = fits;
  moves = moves;
}

abbrev state : List ℕ
state = 10 ∷ 20 ∷ 30 ∷ 40 ∷ 50 ∷ []

-- A read of more than an `int32`, and one of a state that ends before.
read-large : read two_at_most state (2 ^ 40) ≡ (pos 2, 10 ∷ 20 ∷ [], 30 ∷ 40 ∷ 50 ∷ [])
unfolding read wanted returned
read-large = refl

read-last : read two_at_most (50 ∷ []) 4096 ≡ (pos 1, 50 ∷ [], [])
unfolding read wanted returned
read-last = refl

read_to_end_lem_example : read_to_end two_at_most state 4096 6 ≡ some state
read_to_end_lem_example =
    read_to_end_lem two_at_most-IsReadable state 4096 6 (omega arith) (omega arith)

abbrev three_at_most : List ℕ → ℤ → List ℕ → Answer (List ℕ)
three_at_most s w b = record {
  result = result_ok;
  count = min 3 (length b);
  bytes = [];
  next = s ++ take (min 3 (length b)) b;
}

three_at_most-IsWritable : IsWritable three_at_most (λ s. s)
three_at_most-IsWritable = record {
  succeeds = λ s b. refl;
  takes = λ s b. refl;
  moves = λ s b p. omega arith;
}

write-small_state : write three_at_most [] state ≡ (pos 3, 10 ∷ 20 ∷ 30 ∷ [])
unfolding write write_returned int32_of
write-small_state = refl

write_all_lem_example : Option.map (λ s. s) (write_all three_at_most [] state 5) ≡ some state
write_all_lem_example =
    write_all_lem three_at_most-IsWritable [] state 5 (omega arith) (omega arith)
