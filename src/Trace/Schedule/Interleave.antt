-- ===== src/Trace/Schedule/Interleave.antt =====
-- The sequence of the pairs and of the last head, by recursion on the heads.
use attacc_simulator_vlm.Prelude.{
  ℕ, suc, ◌+◌, ◌-◌, ◌*◌, ◌%◌, ◌≡◌, refl, sym, ◌∙◌, ap, true, false, List, [], ◌∷◌, ◌++◌,
  append_assoc, if◌then◌else◌, ◌==◌, Result, ok, or_raise, index_error, ◌>>=◌, ◌⊕◌, for_each,
  range_from, All, arith, length, length-append, get_elem?, get_elem?-append, ceil_div, some,
}
use attacc_simulator_vlm.Trace.Command.{Command}
use attacc_simulator_vlm.Trace.Head.{Head}
use attacc_simulator_vlm.Trace.Select.{Kind, select, selected, selected-⊕, ⊕_assoc, nil-⊕}
use attacc_simulator_vlm.Trace.Schedule.Parts.{IsHead}
use attacc_simulator_vlm.Trace.Schedule.Traces.{trace_out, selected-pair_trace, selected-last_trace}
use attacc_simulator_vlm.Trace.Schedule.{Generator, pair_trace, last_trace, interleave}

-- The number of the pairs.
abbrev pairs : List Head → ℕ
pairs [] = 0
pairs (h ∷ []) = 0
pairs (h0 ∷ h1 ∷ hs) = suc (pairs hs)

pairs-eq : (hs : List Head) → ceil_div (length hs - 1) 2 ≡ pairs hs
pairs-eq [] = omega arith
pairs-eq (h ∷ []) = omega arith
pairs-eq (h0 ∷ h1 ∷ []) = omega arith
pairs-eq (h0 ∷ h1 ∷ h2 ∷ hs) =
    let e : ceil_div (length (h0 ∷ h1 ∷ h2 ∷ hs) - 1) 2 ≡ suc (ceil_div (length (h2 ∷ hs) - 1) 2) =
      omega arith in
    e ∙ ap suc (pairs-eq (h2 ∷ hs))

module _ (g : Generator) (L : ℕ) where
  abbrev pair_at : List Head → ℕ → Result (List Command)
  pair_at heads t = do
    h0 ← or_raise (get_elem? heads (t * 2)) index_error
    h1 ← or_raise (get_elem? heads (t * 2 + 1)) index_error
    pair_trace g L (t * 2) h0 h1

  abbrev last_at : List Head → ℕ → Result (List Command)
  last_at heads n =
      if n % 2 == 0
      then ok []
      else (do h ← or_raise (get_elem? heads (n - 1)) index_error; last_trace g L h)

  interleave_from :
      (k : Kind) (before hs : List Head) (t n : ℕ)
      → length before ≡ t * 2
      → n ≡ t * 2 + length hs
      → All (IsHead g L) hs
      → selected k
          (for_each (pair_at (before ++ hs)) (range_from t (pairs hs)) ⊕ last_at (before ++ hs) n)
        ≡ ok (trace_out g L k (t * 2 == 0) hs)
  unfolding select
  interleave_from k before [] t n e f v =
      let even : (n % 2 == 0) ≡ true = ground arith in rw even refl
  interleave_from k before (h ∷ []) t n e f v =
      let odd : (n % 2 == 0) ≡ false = ground arith in
      let at_end : n - 1 ≡ length before = omega arith in
      rw (odd, at_end, get_elem?-append before h [], nil-⊕) (selected-last_trace g L k v.0)
  interleave_from k before (h0 ∷ h1 ∷ hs) t n e f (v0, (v1, v)) =
      let heads = before ++ h0 ∷ h1 ∷ hs in
      let first : get_elem? heads (t * 2) ≡ some h0 =
        rw (sym e) (get_elem?-append before h0 (h1 ∷ hs)) in
      let shift : length (before ++ h0 ∷ []) ≡ t * 2 + 1 =
        omega (arith, length-append before (h0 ∷ [])) in
      let second : get_elem? heads (t * 2 + 1) ≡ some h1 =
        rw (append_assoc, shift) at (get_elem?-append (before ++ h0 ∷ []) h1 hs) in
      let later : (suc t * 2 == 0) ≡ false = ground arith in
      let ih =
        interleave_from k (before ++ h0 ∷ h1 ∷ []) hs (suc t) n
          (omega (arith, length-append before (h0 ∷ h1 ∷ []))) (omega arith) v in
      let rest = for_each (pair_at heads) (range_from (suc t) (pairs hs)) in
      rw
        (
          first,
          second,
          ⊕_assoc (pair_trace g L (t * 2) h0 h1) rest (last_at heads n),
          selected-⊕ k (pair_trace g L (t * 2) h0 h1) (rest ⊕ last_at heads n),
          selected-pair_trace g L k (t * 2) v0 v1,
        )
        (rw (rw (append_assoc, later) at ih))

  -- The commands of each kind in the trace of `heads`.
  pub selected-interleave :
      (k : Kind) (heads : List Head)
      → All (IsHead g L) heads
      → selected k (interleave g L (length heads) heads) ≡ ok (trace_out g L k true heads)
  unfolding interleave
  selected-interleave k heads v =
      rw (pairs-eq heads) (interleave_from k [] heads 0 (length heads) refl (omega arith) v)
