-- ===== src/System/Energy/Balance.antt =====
-- The energies of a generation by memory and by kind of layer, against their total.
use attacc_simulator_vlm.Prelude.{ℕ, ◌+◌, ◌≡◌, refl, List, [], ◌∷◌, All, ok, arith, subst, sym}
use attacc_simulator_vlm.Model.Types.{LayerType}
use attacc_simulator_vlm.Ramulator.Machine.{Clock}
use attacc_simulator_vlm.System.Perf.{Timed}
use attacc_simulator_vlm.System.Energy.{
  UnitEnergy, GenEnergies, Energies, add_energy, block_energies, group_energies, collect_energies,
  no_gen_energies, zero_unit_energy,
}

-- Six energies; a transfer has only the last.
abbrev pub IsChargedAs : LayerType → List ℕ → Type 0
IsChargedAs LayerType.g2g es = (comm : ℕ) × (es ≡ 0 ∷ 0 ∷ 0 ∷ 0 ∷ 0 ∷ comm ∷ [])
IsChargedAs LayerType.x2g es = (comm : ℕ) × (es ≡ 0 ∷ 0 ∷ 0 ∷ 0 ∷ 0 ∷ comm ∷ [])
IsChargedAs _ es =
    (off : ℕ) × (l2 : ℕ) × (l1 : ℕ) × (reg : ℕ) × (alu : ℕ) × (comm : ℕ) × (es
      ≡ off ∷ l2 ∷ l1 ∷ reg ∷ alu ∷ comm ∷ [])

abbrev pub IsCharged : {ck : Clock} → Timed ck → Type 0
IsCharged x = IsChargedAs x.layer.type x.energy

-- The total is the sum over the memories, the operations and the transfers, and the sum over the kinds of
-- layers.
pub record Balances (e : Energies) : Type 0 where
  pub by_unit : e.g_all ≡ e.g_offmem + e.g_l2 + e.g_l1 + e.g_reg + e.g_alu + e.comm
  pub by_kind :
      e.g_all ≡ e.fc_mem + e.fc_comp + e.attn_mem + e.attn_comp + e.etc_mem + e.etc_comp + e.comm

-- The same of the two dicts.
record Even (s : GenEnergies × UnitEnergy) : Type 0 where
  balances : Balances (collect_energies s.0 s.1)
  same_comm : s.1.g_comm ≡ (collect_energies s.0 s.1).comm

abbrev Adds : LayerType → List ℕ → GenEnergies × UnitEnergy → Type 0
Adds type es s = (s' : GenEnergies × UnitEnergy) × (add_energy type es s ≡ ok s') × Even s'

six-Adds :
    (type : LayerType) (off l2 l1 reg alu comm : ℕ) (s : GenEnergies × UnitEnergy)
    → IsChargedAs type (off ∷ l2 ∷ l1 ∷ reg ∷ alu ∷ comm ∷ [])
    → Even s
    → Adds type (off ∷ l2 ∷ l1 ∷ reg ∷ alu ∷ comm ∷ []) s
unfolding collect_energies
six-Adds LayerType.fc off l2 l1 reg alu comm s h v =
    (_, refl, record { balances = omega arith; same_comm = omega arith })
six-Adds LayerType.matmul off l2 l1 reg alu comm s h v =
    (_, refl, record { balances = omega arith; same_comm = omega arith })
six-Adds LayerType.act off l2 l1 reg alu comm s h v =
    (_, refl, record { balances = omega arith; same_comm = omega arith })
six-Adds LayerType.softmax off l2 l1 reg alu comm s h v =
    (_, refl, record { balances = omega arith; same_comm = omega arith })
six-Adds LayerType.norm off l2 l1 reg alu comm s h v =
    (_, refl, record { balances = omega arith; same_comm = omega arith })
six-Adds LayerType.g2g off l2 l1 reg alu comm s (only, h) v =
    (_, refl, record { balances = ground arith; same_comm = ground arith })
six-Adds LayerType.x2g off l2 l1 reg alu comm s (only, h) v =
    (_, refl, record { balances = ground arith; same_comm = ground arith })

-- The same for a list that is known to be six energies.
known-Adds :
    (type : LayerType) (es : List ℕ) (off l2 l1 reg alu comm : ℕ) (s : GenEnergies × UnitEnergy)
    → es ≡ off ∷ l2 ∷ l1 ∷ reg ∷ alu ∷ comm ∷ []
    → IsChargedAs type (off ∷ l2 ∷ l1 ∷ reg ∷ alu ∷ comm ∷ [])
    → Even s
    → Adds type es s
known-Adds type es off l2 l1 reg alu comm s e h v =
    subst (λ es. Adds type es s) (sym e) (six-Adds type off l2 l1 reg alu comm s h v)

add_energy-Even :
    (type : LayerType) (es : List ℕ) (s : GenEnergies × UnitEnergy)
    → IsChargedAs type es
    → Even s
    → Adds type es s
add_energy-Even LayerType.fc es s (a, b, c, d, e, f, h) v =
    known-Adds LayerType.fc es a b c d e f s h (a, b, c, d, e, f, refl) v
add_energy-Even LayerType.matmul es s (a, b, c, d, e, f, h) v =
    known-Adds LayerType.matmul es a b c d e f s h (a, b, c, d, e, f, refl) v
add_energy-Even LayerType.act es s (a, b, c, d, e, f, h) v =
    known-Adds LayerType.act es a b c d e f s h (a, b, c, d, e, f, refl) v
add_energy-Even LayerType.softmax es s (a, b, c, d, e, f, h) v =
    known-Adds LayerType.softmax es a b c d e f s h (a, b, c, d, e, f, refl) v
add_energy-Even LayerType.norm es s (a, b, c, d, e, f, h) v =
    known-Adds LayerType.norm es a b c d e f s h (a, b, c, d, e, f, refl) v
add_energy-Even LayerType.g2g es s (comm, h) v =
    known-Adds LayerType.g2g es 0 0 0 0 0 comm s h (comm, refl) v
add_energy-Even LayerType.x2g es s (comm, h) v =
    known-Adds LayerType.x2g es 0 0 0 0 0 comm s h (comm, refl) v

module _ {ck : Clock} where
  block_energies-Even :
      (xs : List (Timed ck)) (s : GenEnergies × UnitEnergy)
      → All IsCharged xs
      → Even s
      → (s' : GenEnergies × UnitEnergy) × (block_energies xs s ≡ ok s') × Even s'
  unfolding block_energies
  block_energies-Even [] s h v = (s, refl, v)
  block_energies-Even (x ∷ xs) s h v =
      let (s1, first, v1) = add_energy-Even x.layer.type x.energy s h.0 v in
      let (s2, rest, v2) = block_energies-Even xs s1 h.1 v1 in (s2, rw first rest, v2)

  group_energies-Even :
      (blocks : List (List (Timed ck))) (s : GenEnergies × UnitEnergy)
      → All (All IsCharged) blocks
      → Even s
      → (s' : GenEnergies × UnitEnergy) × (group_energies blocks s ≡ ok s') × Even s'
  unfolding group_energies
  group_energies-Even [] s h v = (s, refl, v)
  group_energies-Even (block ∷ blocks) s h v =
      let (s1, first, v1) = block_energies-Even block s h.0 v in
      let (s2, rest, v2) = group_energies-Even blocks s1 h.1 v1 in (s2, rw first rest, v2)

  -- For blocks whose layers have six energies each, a transfer only the last, the energies of a group are
  -- collected without an error, and the total is the sum over the memories, the operations and the
  -- transfers, and also the sum over the kinds of layers.
  pub collect_energies-Balances :
      (blocks : List (List (Timed ck)))
      → All (All IsCharged) blocks
      → (e : GenEnergies) × (u : UnitEnergy) × (group_energies blocks
            (no_gen_energies, zero_unit_energy)
          ≡ ok (e, u))
        × Balances (collect_energies e u)
  unfolding collect_energies
  collect_energies-Balances blocks h =
      let start : Even (no_gen_energies, zero_unit_energy) = record {
        balances = omega arith;
        same_comm = omega arith;
      } in
      let (s, done, v) = group_energies-Even blocks (no_gen_energies, zero_unit_energy) h start in
      (s.0, s.1, done, v.balances)
