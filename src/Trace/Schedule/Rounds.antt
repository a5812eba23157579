-- ===== src/Trace/Schedule/Rounds.antt =====
-- The rounds of the overlapping loops: each kind of command comes from one part of the body, so the
-- loops may be read one kind at a time.
use attacc_simulator_vlm.Prelude.{
  ℕ, suc, ◌≤◌, ◌≡◌, ◌∙◌, Bool, true, false, List, [], if◌then◌else◌, Result, ok, ◌⊕◌, for_each,
  range, arith,
}
use attacc_simulator_vlm.Trace.Command.{Command}
use attacc_simulator_vlm.Trace.Select.{
  Kind, wrgb, mac, mvsb, mvgb, sfm, sync, same, selected, Emits, selected-⊕, selected-Emits,
  selected-for_each, for_each_ext, nil-⊕, ⊕-nil,
}
use attacc_simulator_vlm.Trace.Schedule.{overlap}

-- Which of the two GEMV-buffer commands a loop hands out.
abbrev pub gemv_kind : Bool → Kind
gemv_kind true = wrgb
gemv_kind false = mvgb

-- The part of the body with the commands of the kind `k`.
abbrev pub part : Kind → Bool → (a b c d e : Result (List Command)) → Result (List Command)
part mac w a b c d e = a
part mvsb w a b c d e = b
part sfm w a b c d e = c
part sync w a b c d e = e
part wrgb w a b c d e = if w then d else ok []
part mvgb w a b c d e = if w then ok [] else d

module _ {a b c d e : Result (List Command)} (w : Bool) (ha : Emits mac a) (hb : Emits mvsb b)
    (hc : Emits sfm c) (hd : Emits (gemv_kind w) d) (he : Emits sync e) where
  selected-parts :
      (k : Kind)
      → selected k (overlap a b c d e) ≡ (
          (if same mac k then a else ok [])
          ⊕ (if same mvsb k then b else ok [])
          ⊕ (if same sfm k then c else ok [])
          ⊕ (if same (gemv_kind w) k then d else ok [])
          ⊕ (if same sync k then e else ok []))
  selected-parts k = rw (
    selected-⊕ k a (b ⊕ c ⊕ d ⊕ e),
    selected-⊕ k b (c ⊕ d ⊕ e),
    selected-⊕ k c (d ⊕ e),
    selected-⊕ k d e,
    selected-Emits k mac ha,
    selected-Emits k mvsb hb,
    selected-Emits k sfm hc,
    selected-Emits k (gemv_kind w) hd,
    selected-Emits k sync he,
  )

pub selected-overlap :
    {a b c d e : Result (List Command)} (w : Bool) (k : Kind)
    → Emits mac a
    → Emits mvsb b
    → Emits sfm c
    → Emits (gemv_kind w) d
    → Emits sync e
    → selected k (overlap a b c d e) ≡ part k w a b c d e
selected-overlap true mac ha hb hc hd he =
    selected-parts true ha hb hc hd he mac ∙ simp (nil-⊕, ⊕-nil)
selected-overlap true mvsb ha hb hc hd he =
    selected-parts true ha hb hc hd he mvsb ∙ simp (nil-⊕, ⊕-nil)
selected-overlap true sfm ha hb hc hd he =
    selected-parts true ha hb hc hd he sfm ∙ simp (nil-⊕, ⊕-nil)
selected-overlap true sync ha hb hc hd he =
    selected-parts true ha hb hc hd he sync ∙ simp (nil-⊕, ⊕-nil)
selected-overlap true wrgb ha hb hc hd he =
    selected-parts true ha hb hc hd he wrgb ∙ simp (nil-⊕, ⊕-nil)
selected-overlap true mvgb ha hb hc hd he =
    selected-parts true ha hb hc hd he mvgb ∙ simp (nil-⊕, ⊕-nil)
selected-overlap false mac ha hb hc hd he =
    selected-parts false ha hb hc hd he mac ∙ simp (nil-⊕, ⊕-nil)
selected-overlap false mvsb ha hb hc hd he =
    selected-parts false ha hb hc hd he mvsb ∙ simp (nil-⊕, ⊕-nil)
selected-overlap false sfm ha hb hc hd he =
    selected-parts false ha hb hc hd he sfm ∙ simp (nil-⊕, ⊕-nil)
selected-overlap false sync ha hb hc hd he =
    selected-parts false ha hb hc hd he sync ∙ simp (nil-⊕, ⊕-nil)
selected-overlap false wrgb ha hb hc hd he =
    selected-parts false ha hb hc hd he wrgb ∙ simp (nil-⊕, ⊕-nil)
selected-overlap false mvgb ha hb hc hd he =
    selected-parts false ha hb hc hd he mvgb ∙ simp (nil-⊕, ⊕-nil)

-- The parts of a loop's body, round by round.
pub record Rounds (w : Bool) (n : ℕ) (a b c d e : ℕ → Result (List Command)) : Type 0 where
  pub macs : (j : ℕ) → j ≤ n → Emits mac (a j)
  pub moves : (j : ℕ) → j ≤ n → Emits mvsb (b j)
  pub softmaxes : (j : ℕ) → j ≤ n → Emits sfm (c j)
  pub gemvs : (j : ℕ) → j ≤ n → Emits (gemv_kind w) (d j)
  pub syncs : (j : ℕ) → j ≤ n → Emits sync (e j)

-- A whole loop, one kind at a time.
pub selected-loop :
    {w : Bool} {n : ℕ} {a b c d e : ℕ → Result (List Command)} (k : Kind)
    → Rounds w n a b c d e
    → selected k (for_each (λ j. overlap (a j) (b j) (c j) (d j) (e j)) (range (suc n)))
      ≡ for_each (λ j. part k w (a j) (b j) (c j) (d j) (e j)) (range (suc n))
selected-loop {w} {n} {a} {b} {c} {d} {e} k r =
    selected-for_each k (λ j. overlap (a j) (b j) (c j) (d j) (e j)) (range (suc n))
    ∙ for_each_ext (λ j. selected k (overlap (a j) (b j) (c j) (d j) (e j)))
        (λ j. part k w (a j) (b j) (c j) (d j) (e j)) 0 (suc n)
        (λ j lo hi.
          let h : j ≤ n = omega arith in
          selected-overlap w k (r.macs j h) (r.moves j h) (r.softmaxes j h) (r.gemvs j h)
            (r.syncs j h))
