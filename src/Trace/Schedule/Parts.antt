-- ===== src/Trace/Schedule/Parts.antt =====
-- The shape of the heads' lists, and why no part of a loop's body fails on them.
use attacc_simulator_vlm.Prelude.{
  ℕ, ◌-◌, ◌*◌, ◌/◌, ◌≤◌, ◌<◌, ◌≡◌, refl, Bool, true, false, List, [], ◌∷◌, if◌then◌else◌, leb, ◌==◌,
  Bool-cases, inl, inr, Result, ok, or_raise, index_error, All, All-append, All-take, All-drop,
  All-get, arith, length, get_elem?, concat, take, drop, ceil_div,
}
use attacc_simulator_vlm.Trace.Command.{Command, n_channel, pim_barrier}
use attacc_simulator_vlm.Trace.Channels.{over_channels-AllOf}
use attacc_simulator_vlm.Trace.Head.{Head}
use attacc_simulator_vlm.Trace.Select.{
  Kind, wrgb, mac, mvsb, mvgb, sfm, sync, kind_of, AllOf, Emits,
}
use attacc_simulator_vlm.Trace.Schedule.Loops.{slice_from-eq-take}
use attacc_simulator_vlm.Trace.Schedule.{
  Generator, slice_from, barrier, previous, score_rows_at, context_row_at, softmax_at, barrier_at,
  wrgb_at, mvgb_at,
}

abbrev pub first_row : List (List Command) → List Command
first_row [] = []
first_row (r ∷ _) = r

-- The shape of a head's lists: each holds one kind of command, and the loops fit their lengths.
pub record IsHead (g : Generator) (L : ℕ) (h : Head) : Type 0 where
  pub wrgb_of : AllOf wrgb h.score_wrgb
  pub mac_of : All (AllOf mac) h.score_mac
  pub mvsb_of : All (AllOf mvsb) h.score_mvsb
  pub sfm_of : AllOf sfm h.sfm
  pub mvgb_of : AllOf mvgb h.context_mvgb
  pub context_mac_of : All (AllOf mac) h.context_mac
  pub context_mvsb_of : All (AllOf mvsb) h.context_mvsb
  pub rows_fit : length h.score_mac ≤ g.score_length L * 16
  pub moves_fit : length h.score_mvsb ≡ g.score_length L
  pub context_rows_fit : length h.context_mac ≡ g.context_length
  pub context_moves_fit : length h.context_mvsb ≡ g.context_length
  pub dummy_fits : h.valid_channel ≤ length (first_row h.score_mac)

AllOf-concat : (k : Kind) (rows : List (List Command)) → All (AllOf k) rows → AllOf k (concat rows)
AllOf-concat k [] h = tt
AllOf-concat k (r ∷ rows) h =
    All-append (λ c. kind_of c.op ≡ k) r (concat rows) h.0 (AllOf-concat k rows h.1)

pub emits : (k : Kind) (xs : List Command) → AllOf k xs → Emits k (ok xs)
emits k xs h = record { commands = xs; returns = refl; all_of = h }

pub Emits-if :
    (k : Kind) (b : Bool) {r : Result (List Command)}
    → (b ≡ false → Emits k r)
    → Emits k (if b then ok [] else r)
Emits-if k true h = emits k [] tt
Emits-if k false h = h refl

Emits-slice :
    (k : Kind) (n p : ℕ) (xs : List Command) → AllOf k xs → Emits k (ok (slice_from n p xs))
Emits-slice k n p xs h = rw slice_from-eq-take (
    emits k (take n (drop p xs))
      (All-take (λ c. kind_of c.op ≡ k) n (drop p xs) (All-drop (λ c. kind_of c.op ≡ k) p xs h)))

pub Emits-rows :
    (k : Kind) (n p : ℕ) (rows : List (List Command))
    → All (AllOf k) rows
    → Emits k (ok (concat (slice_from n p rows)))
Emits-rows k n p rows h = rw slice_from-eq-take (
    emits k (concat (take n (drop p rows))) (
      AllOf-concat k (take n (drop p rows))
        (All-take (AllOf k) n (drop p rows) (All-drop (AllOf k) p rows h))))

pub Emits-row :
    (k : Kind) (j : ℕ) (rows : List (List Command))
    → All (AllOf k) rows
    → j < length rows
    → Emits k (or_raise (get_elem? rows j) index_error)
Emits-row k j rows h lt =
    let (r, found, all_of) = All-get (AllOf k) rows j h lt in rw found (emits k r all_of)

module _ (g : Generator) (L : ℕ) where
  pub Emits-previous :
      (n j : ℕ) (rows : List (List Command))
      → All (AllOf mvsb) rows
      → length rows ≡ n
      → j ≤ n
      → Emits mvsb (previous rows j)
  Emits-previous n j rows h e le =
      Emits-if mvsb (j == 0) (λ later. Emits-row mvsb (j - 1) rows h (ground arith))

  pub Emits-wrgb : (n j : ℕ) {h : Head} → IsHead g L h → j ≤ n → Emits wrgb (wrgb_at g L n j h)
  Emits-wrgb n j {h} w le = Emits-if wrgb (j == n) λ inside.
      let some_rounds : (n == 0) ≡ false = ground arith in
      let st = g.wrgb_total h.valid_channel / n in
      rw some_rounds (Emits-slice wrgb st (j * st) h.score_wrgb w.wrgb_of)

  pub Emits-mvgb : (n j : ℕ) {h : Head} → IsHead g L h → j ≤ n → Emits mvgb (mvgb_at g L n j h)
  Emits-mvgb n j {h} w le = Emits-if mvgb (j == n) λ inside. elim (Bool-cases (leb (n / 2) j)) [
    | inl late ↦
        let some_rounds : (ceil_div n 2 == 0) ≡ false = ground arith in
        let st = g.mvgb_total L h.valid_channel / ceil_div n 2 in
        rw (late, some_rounds) (Emits-slice mvgb st ((j - n / 2) * st) h.context_mvgb w.mvgb_of)
    | inr early ↦ rw early (emits mvgb [] tt)
  ]

  pub Emits-softmax : (j : ℕ) {h : Head} → IsHead g L h → Emits sfm (softmax_at j h)
  Emits-softmax j {h} w = elim (Bool-cases (j == 0)) [
    | inl first ↦ rw first (emits sfm h.sfm w.sfm_of)
    | inr later ↦ rw later (emits sfm [] tt)
  ]

  pub Emits-score : (n j : ℕ) {h : Head} → IsHead g L h → Emits mac (score_rows_at n j h)
  Emits-score n j {h} v =
      Emits-if mac (j == n) (λ _. Emits-rows mac 16 (j * 16) h.score_mac v.mac_of)

  pub Emits-context :
      (j : ℕ) {h : Head}
      → IsHead g L h
      → j ≤ g.context_length
      → Emits mac (context_row_at g.context_length j h)
  Emits-context j {h} v le = Emits-if mac (j == g.context_length) (λ inside.
      let fit = v.context_rows_fit in Emits-row mac j h.context_mac v.context_mac_of (ground arith))

pub Emits-barrier : (n j : ℕ) → Emits sync (barrier_at n j)
Emits-barrier n j =
    Emits-if sync (j == n) (λ _. emits sync barrier (over_channels-AllOf n_channel pim_barrier 0 0))
