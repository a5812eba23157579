-- ===== src/System/Energy.antt =====
-- `_accumulate_gen_energy`, the sums of `unit_energy` and `_collect_energies` (src/system.py). A layer's energy is
-- a list of six: memory, two caches, registers, operations, transfers.
pub mod Balance
use attacc_simulator_vlm.Prelude.{
  ℕ, ◌+◌, Bool, true, false, List, [], ◌∷◌, Result, ok, raise, ◌>>=◌, index_error, if◌then◌else◌,
}
use attacc_simulator_vlm.Model.Types.{LayerType, fc, matmul, act, norm, g2g, x2g}
use attacc_simulator_vlm.Model.Layer.{Layer}
use attacc_simulator_vlm.Ramulator.Machine.{Clock}
use attacc_simulator_vlm.System.Perf.{Timed}

-- `unit_energy`
pub record UnitEnergy : Type 0 where
  pub g_all : ℕ
  pub g_offmem : ℕ
  pub g_l2 : ℕ
  pub g_l1 : ℕ
  pub g_reg : ℕ
  pub g_alu : ℕ
  pub g_comm : ℕ

-- A value of `gen_energies`.
pub record Parts : Type 0 where
  pub mem : ℕ
  pub comp : ℕ
  pub comm : ℕ

-- `gen_energies`; a type that is missing has no energy, which `_energy_component` gives for it.
pub record GenEnergies : Type 0 where
  pub fc : Parts
  pub matmul : Parts
  pub act : Parts
  pub softmax : Parts
  pub norm : Parts
  pub g2g : Parts
  pub x2g : Parts

abbrev pub no_parts : Parts
no_parts = record { mem = 0; comp = 0; comm = 0 }

abbrev pub no_gen_energies : GenEnergies
no_gen_energies = record {
  fc = no_parts;
  matmul = no_parts;
  act = no_parts;
  softmax = no_parts;
  norm = no_parts;
  g2g = no_parts;
  x2g = no_parts;
}

-- `_zero_unit_energy`
abbrev pub zero_unit_energy : UnitEnergy
zero_unit_energy = record {
  g_all = 0;
  g_offmem = 0;
  g_l2 = 0;
  g_l1 = 0;
  g_reg = 0;
  g_alu = 0;
  g_comm = 0;
}

abbrev pub add_parts : (mem comp comm : ℕ) → Parts → Parts
add_parts mem comp comm p = record { mem = p.mem + mem; comp = p.comp + comp; comm = p.comm + comm }

abbrev pub at_type : LayerType → (Parts → Parts) → GenEnergies → GenEnergies
at_type LayerType.fc f e = record e { fc = f e.fc }
at_type LayerType.matmul f e = record e { matmul = f e.matmul }
at_type LayerType.act f e = record e { act = f e.act }
at_type LayerType.softmax f e = record e { softmax = f e.softmax }
at_type LayerType.norm f e = record e { norm = f e.norm }
at_type LayerType.g2g f e = record e { g2g = f e.g2g }
at_type LayerType.x2g f e = record e { x2g = f e.x2g }

-- `_accumulate_gen_energy` and the seven statements behind it, for the six energies of a layer.
abbrev pub add_energy :
    LayerType → List ℕ → GenEnergies × UnitEnergy → Result (GenEnergies × UnitEnergy)
add_energy type (off ∷ l2 ∷ l1 ∷ reg ∷ alu ∷ comm ∷ []) (e, u) = ok (
  at_type type (add_parts off (l2 + l1 + reg + alu) comm) e,
  record {
    g_all = u.g_all + (off + l2 + l1 + reg + alu + comm);
    g_offmem = u.g_offmem + off;
    g_l2 = u.g_l2 + l2;
    g_l1 = u.g_l1 + l1;
    g_reg = u.g_reg + reg;
    g_alu = u.g_alu + alu;
    g_comm = u.g_comm + comm;
  },
)
add_energy type _ (e, u) = raise index_error

module _ {ck : Clock} where
  unfoldable pub block_energies :
      List (Timed ck) → GenEnergies × UnitEnergy → Result (GenEnergies × UnitEnergy)
  block_energies [] s = ok s
  block_energies (x ∷ xs) s = do s' ← add_energy x.layer.type x.energy s; block_energies xs s'

  -- The energies of `_simulate_gen_group`, over its blocks.
  unfoldable pub group_energies :
      List (List (Timed ck)) → GenEnergies × UnitEnergy → Result (GenEnergies × UnitEnergy)
  unfolding block_energies
  group_energies [] s = ok s
  group_energies (block ∷ blocks) s = do s' ← block_energies block s; group_energies blocks s'

-- The thirteen energies of `_collect_energies`, each before it is divided by `gen_steps`.
pub record Energies : Type 0 where
  pub g_all : ℕ
  pub g_offmem : ℕ
  pub g_l2 : ℕ
  pub g_l1 : ℕ
  pub g_reg : ℕ
  pub g_alu : ℕ
  pub fc_mem : ℕ
  pub fc_comp : ℕ
  pub attn_mem : ℕ
  pub attn_comp : ℕ
  pub etc_mem : ℕ
  pub etc_comp : ℕ
  pub comm : ℕ

unfoldable pub collect_energies : GenEnergies → UnitEnergy → Energies
collect_energies e u = record {
  g_all = u.g_all;
  g_offmem = u.g_offmem;
  g_l2 = u.g_l2;
  g_l1 = u.g_l1;
  g_reg = u.g_reg;
  g_alu = u.g_alu;
  fc_mem = e.fc.mem;
  fc_comp = e.fc.comp;
  attn_mem = e.matmul.mem + e.softmax.mem;
  attn_comp = e.matmul.comp + e.softmax.comp;
  etc_mem = e.act.mem + e.norm.mem;
  etc_comp = e.act.comp + e.norm.comp;
  comm =
      e.fc.comm + e.matmul.comm + e.act.comm + e.softmax.comm + e.norm.comm + e.g2g.comm
      + e.x2g.comm;
}

-- The energies as the row of results has them.
abbrev pub energy_list : Energies → List ℕ
energy_list e =
    e.g_all ∷ e.g_offmem ∷ e.g_l2 ∷ e.g_l1 ∷ e.g_reg ∷ e.g_alu ∷ e.fc_mem ∷ e.fc_comp ∷ e.attn_mem
    ∷ e.attn_comp ∷ e.etc_mem ∷ e.etc_comp ∷ e.comm ∷ []
