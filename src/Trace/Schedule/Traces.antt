-- ===== src/Trace/Schedule/Traces.antt =====
-- The whole trace, kind by kind: what two overlapped heads hand out, what a single last head hands
-- out, and their sequence.
use attacc_simulator_vlm.Prelude.{
  ℕ, zero, suc, ◌+◌, ◌≤◌, ◌<◌, ◌≡◌, ◌≢◌, refl, Bool, true, false, List, [], ◌∷◌, ◌++◌,
  if◌then◌else◌, ◌==◌, inl, inr, Result, ok, or_raise, index_error, Exception, ◌>>=◌, ◌⊕◌, for_each,
  range, range_from, All, All-take, arith, length, get_elem?, get_elem?-drop, concat, take, drop,
}
use attacc_simulator_vlm.Trace.Command.{Command, n_channel, pim_barrier}
use attacc_simulator_vlm.Trace.Channels.{over_channels-AllOf}
use attacc_simulator_vlm.Trace.Head.{Head}
use attacc_simulator_vlm.Trace.Select.{
  kind_of, Kind, wrgb, mac, mvgb, sfm, sync, same, selected, AllOf, select-AllOf, selected-⊕,
}
use attacc_simulator_vlm.Trace.Schedule.Parts.{IsHead, first_row}
use attacc_simulator_vlm.Trace.Schedule.Phases.{
  pick, score_syncs, context_syncs, wrgb_handed, mvgb_handed, score_with_wrgb-picks,
  score_with_softmax-picks, context_with_softmax-picks, context_alone-picks, score_alone-picks,
}
use attacc_simulator_vlm.Trace.Schedule.{
  Generator, barrier, dummy_mac, pair_trace, last_trace, score_with_wrgb, score_with_softmax,
  context_with_softmax, context_alone, score_alone,
}

-- The dummy MACs in front of the first pair.
abbrev pub dummies : Head → List Command
dummies h = take h.valid_channel (first_row h.score_mac)

drop-ne_nil : (xs : List Command) (p : ℕ) → p < length xs → drop p xs ≢ []
drop-ne_nil [] p h = elim h [ ]
drop-ne_nil (x ∷ xs) zero h = λ e. cc
drop-ne_nil (x ∷ xs) (suc p) h = drop-ne_nil xs p (omega arith)

module _ (e : Exception) where
  items_from :
      (xs : List Command) (p n : ℕ)
      → p + n ≤ length xs
      → for_each (λ j. do cmd ← or_raise (get_elem? xs j) e; ok (cmd ∷ [])) (range_from p n)
        ≡ ok (take n (drop p xs))
  items_from xs p zero h = refl
  items_from xs p (suc n) h = elim (get_elem?-drop p xs) [
    | inl (no_item, gone) ↦ absurd (drop-ne_nil xs p (omega arith) gone)
    | inr (x, item, found) ↦ rw (item, found, items_from xs (suc p) n (omega arith))
  ]

dummies_in :
    (e : Exception) (rows : List (List Command)) (n : ℕ)
    → n ≤ length (first_row rows)
    → for_each
        (λ j. do
          row ← or_raise (get_elem? rows 0) e
          cmd ← or_raise (get_elem? row j) e
          ok (cmd ∷ []))
        (range n)
      ≡ ok (take n (first_row rows))
dummies_in e [] zero h = refl
dummies_in e [] (suc n) h = absurd (omega arith)
dummies_in e (r ∷ rows) n h = items_from e r 0 n (omega arith)

dummy_mac-eq-dummies :
    (g : Generator) (L : ℕ) {h : Head} → IsHead g L h → dummy_mac h ≡ ok (dummies h)
unfolding dummy_mac
dummy_mac-eq-dummies g L {h} v = dummies_in index_error h.score_mac h.valid_channel v.dummy_fits

abbrev pub only : Kind → Kind → List Command → List Command
only k j xs = if same j k then xs else []

selected-ok : (k j : Kind) (xs : List Command) → AllOf j xs → selected k (ok xs) ≡ ok (only k j xs)
selected-ok k j xs h = rw (select-AllOf k j xs h)

first_row-AllOf : (rows : List (List Command)) → All (AllOf mac) rows → AllOf mac (first_row rows)
first_row-AllOf [] h = tt
first_row-AllOf (r ∷ rows) h = h.0

module _ (g : Generator) (L : ℕ) (k : Kind) where
  -- Two overlapped heads.
  abbrev pub pair_out : Bool → Head → Head → List Command
  pair_out first h0 h1 =
      only k wrgb h0.score_wrgb
      ++ (only k mac (if first then dummies h0 else [])
          ++ (only k sync barrier
              ++ (pick k true (concat h0.score_mac) (concat h0.score_mvsb) [] (wrgb_handed g L h1)
                    (score_syncs g L)
                  ++ (pick k false (concat h1.score_mac) (concat h1.score_mvsb) h0.sfm
                        (mvgb_handed g L (g.score_length L) h0) (score_syncs g L)
                      ++ (pick k false (concat h0.context_mac) (concat h0.context_mvsb) h1.sfm
                            (mvgb_handed g L g.context_length h1) (context_syncs g L)
                          ++ pick k true (concat h1.context_mac) (concat h1.context_mvsb) [] []
                              (context_syncs g L))))))

  -- A single last head.
  abbrev pub last_out : Head → List Command
  last_out h =
      only k wrgb h.score_wrgb
      ++ (only k sync barrier
          ++ (pick k true (concat h.score_mac) (concat h.score_mvsb) [] [] (score_syncs g L)
              ++ (only k sfm h.sfm
                  ++ (only k mvgb h.context_mvgb
                      ++ (only k sync barrier
                          ++ pick k true (concat h.context_mac) (concat h.context_mvsb) [] []
                              (context_syncs g L))))))

  -- The heads two at a time, with the dummy MACs if `first`.
  abbrev pub trace_out : Bool → List Head → List Command
  trace_out first [] = []
  trace_out first (h ∷ []) = last_out h
  trace_out first (h0 ∷ h1 ∷ hs) = pair_out first h0 h1 ++ trace_out false hs

  dummies-AllOf : {h : Head} → IsHead g L h → AllOf mac (dummies h)
  dummies-AllOf {h} v =
      All-take (λ c. kind_of c.op ≡ mac) h.valid_channel (first_row h.score_mac)
        (first_row-AllOf h.score_mac v.mac_of)

  selected-dummy :
      (first : Bool) {h : Head}
      → IsHead g L h
      → selected k (if first then dummy_mac h else ok [])
        ≡ ok (only k mac (if first then dummies h else []))
  selected-dummy true {h} v =
      rw (dummy_mac-eq-dummies g L v) (selected-ok k mac (dummies h) (dummies-AllOf v))
  selected-dummy false v = selected-ok k mac [] tt

  pub selected-pair_trace :
      (i : ℕ) {h0 h1 : Head}
      → IsHead g L h0
      → IsHead g L h1
      → selected k (pair_trace g L i h0 h1) ≡ ok (pair_out (i == 0) h0 h1)
  unfolding pair_trace
  selected-pair_trace i {h0} {h1} v0 v1 =
      let dummy : Result (List Command) = if i == 0 then dummy_mac h0 else ok [] in
      let a = score_with_wrgb g L h0 h1 in
      let b = score_with_softmax g L h0 h1 in
      let c = context_with_softmax g L h0 h1 in
      let d = context_alone g L h1 in
      rw (
        selected-⊕ k (ok h0.score_wrgb) (dummy ⊕ ok barrier ⊕ a ⊕ b ⊕ c ⊕ d),
        selected-⊕ k dummy (ok barrier ⊕ a ⊕ b ⊕ c ⊕ d),
        selected-⊕ k (ok barrier) (a ⊕ b ⊕ c ⊕ d),
        selected-⊕ k a (b ⊕ c ⊕ d),
        selected-⊕ k b (c ⊕ d),
        selected-⊕ k c d,
        selected-ok k wrgb h0.score_wrgb v0.wrgb_of,
        selected-dummy (i == 0) v0,
        selected-ok k sync barrier (over_channels-AllOf n_channel pim_barrier 0 0),
        score_with_wrgb-picks g L k v0 v1,
        score_with_softmax-picks g L k v0 v1,
        context_with_softmax-picks g L k v0 v1,
        context_alone-picks g L k v1,
      )

  pub selected-last_trace :
      {h : Head} → IsHead g L h → selected k (last_trace g L h) ≡ ok (last_out h)
  unfolding last_trace
  selected-last_trace {h} v =
      let a = score_alone g L h in
      let d = context_alone g L h in
      rw (
        selected-⊕ k (ok h.score_wrgb)
            (ok barrier ⊕ a ⊕ ok h.sfm ⊕ ok h.context_mvgb ⊕ ok barrier ⊕ d),
        selected-⊕ k (ok barrier) (a ⊕ ok h.sfm ⊕ ok h.context_mvgb ⊕ ok barrier ⊕ d),
        selected-⊕ k a (ok h.sfm ⊕ ok h.context_mvgb ⊕ ok barrier ⊕ d),
        selected-⊕ k (ok h.sfm) (ok h.context_mvgb ⊕ ok barrier ⊕ d),
        selected-⊕ k (ok h.context_mvgb) (ok barrier ⊕ d),
        selected-⊕ k (ok barrier) d,
        selected-ok k wrgb h.score_wrgb v.wrgb_of,
        selected-ok k sfm h.sfm v.sfm_of,
        selected-ok k mvgb h.context_mvgb v.mvgb_of,
        selected-ok k sync barrier (over_channels-AllOf n_channel pim_barrier 0 0),
        score_alone-picks g L k v,
        context_alone-picks g L k v,
      )
