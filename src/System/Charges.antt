-- ===== src/System/Charges.antt =====
-- What devices charge: six energies for a layer, of which a transfer has only the last; so the energies of every
-- simulated group balance.
use attacc_simulator_vlm.Prelude.{
  ℕ, ◌*◌, ◌≡◌, refl, Bool, true, false, List, [], ◌∷◌, All, map, Result, ok, raise, Always,
  bind-Always,
}
use attacc_simulator_vlm.Model.Types.{LayerType, DeviceType}
use attacc_simulator_vlm.Model.Layer.{Layer}
use attacc_simulator_vlm.Model.Routing.{Place}
use attacc_simulator_vlm.Ramulator.Machine.{Pandas, Clock, Host}
use attacc_simulator_vlm.Ramulator.Statements.{Store, Action, continue_with}
use attacc_simulator_vlm.Ramulator.{Setup}
use attacc_simulator_vlm.Devices.Arithmetic.{Arithmetic}
use attacc_simulator_vlm.Devices.Rates.{XpuDevice, Traffic, device_energies, io_time_energy}
use attacc_simulator_vlm.Devices.Rates
use attacc_simulator_vlm.Devices.Pricing.{TileTable, exec_time, get_energy, get_traffic, computed}
use attacc_simulator_vlm.Devices.Pricing
use attacc_simulator_vlm.Devices.Pim.{Pim, charge, charged, has_score}
use attacc_simulator_vlm.Devices.Pim
use attacc_simulator_vlm.System.{select_acc_device}
use attacc_simulator_vlm.System.Group.{Device, device_cost, simulate_block}
use attacc_simulator_vlm.System.Energy.Balance.{IsChargedAs, IsCharged}

pub continue_with-Always :
    {S A B : Type 0} (P : B → Type 0) (f : A → S → Result B × S) (r : Result A) (s : S)
    → ((a : A) (s : S) → Always P (f a s).0)
    → Always P (continue_with f r s).0
continue_with-Always P f (ok a) s h = h a s
continue_with-Always P f (raise e) s h = tt

pub continue_with-both :
    {S A B : Type 0} (Q : A → Type 0) (P : B → Type 0) (f : A → S → Result B × S) (r : Result A)
    (s : S)
    → Always Q r
    → ((a : A) (s : S) → Q a → Always P (f a s).0)
    → Always P (continue_with f r s).0
continue_with-both Q P f (ok a) s q h = h a s q
continue_with-both Q P f (raise e) s q h = tt

abbrev pub ChargesAs : {T : Type 0} → LayerType → T × List ℕ → Type 0
ChargesAs type (time, energies) = IsChargedAs type energies

abbrev IsSix : List ℕ → Type 0
IsSix es =
    (off : ℕ) × (l2 : ℕ) × (l1 : ℕ) × (reg : ℕ) × (alu : ℕ) × (comm : ℕ) × (es
      ≡ off ∷ l2 ∷ l1 ∷ reg ∷ alu ∷ comm ∷ [])

module _ {ck : Clock} (ar : Arithmetic ck) (xpu : XpuDevice ck) where
  device_energies-IsSix :
      (name : DeviceType) (layer : Layer) (t : Traffic)
      → IsSix (map (λ i. i * xpu.num_xpu) (Rates.energies_of ar xpu name layer t))
  device_energies-IsSix DeviceType.cpu layer t = (_, _, _, _, _, _, refl)
  device_energies-IsSix DeviceType.gpu layer t = (_, _, _, _, _, _, refl)
  device_energies-IsSix DeviceType.pim layer t = (_, _, _, _, _, _, refl)
  device_energies-IsSix DeviceType.none_device layer t = (_, _, _, _, _, _, refl)

  computed-Always :
      (P : ck.Time × List ℕ → Type 0) (layer : Layer) (table : TileTable)
      → ((time : ck.Time) (es : List ℕ) → IsSix es → P (time, es))
      → Always P (computed ar xpu layer table).0
  unfolding get_energy
  computed-Always P layer table h =
      let timed = exec_time ar xpu layer table in
      continue_with-Always P _ timed.0 timed.1 (λ (time, bound) s.
        let moved = get_traffic ar xpu layer s in
        let paid = get_energy ar xpu layer s in
        continue_with-both IsSix P _ paid.0 paid.1
          (continue_with-Always IsSix _ moved.0 moved.1
            (λ t s. device_energies-IsSix xpu.name layer t))
          (λ es s six. h time es six))

  -- A transfer's energies: only the last.
  abbrev IsLast : List ℕ → Type 0
  IsLast es = (comm : ℕ) × (es ≡ 0 ∷ 0 ∷ 0 ∷ 0 ∷ 0 ∷ comm ∷ [])

  io_time_energy-Always :
      (name : DeviceType) (layer : Layer)
      → Always (λ (cost : ck.Time × List ℕ). IsLast cost.1) (io_time_energy ar xpu name layer)
  io_time_energy-Always DeviceType.cpu layer =
      bind-Always _ (Rates.one_way_time ar xpu layer) _ (λ t. (0, refl))
  io_time_energy-Always DeviceType.gpu layer =
      bind-Always _ (Rates.gpu_io_time ar xpu layer.type layer) _ (λ t. (_, refl))
  io_time_energy-Always DeviceType.pim layer =
      bind-Always _ (Rates.gpu_io_time ar xpu layer.type layer) _ (λ t. (_, refl))
  io_time_energy-Always DeviceType.none_device layer =
      bind-Always _ (Rates.gpu_io_time ar xpu layer.type layer) _ (λ t. (_, refl))

  xpu_cost-ChargesAs :
      (type : LayerType) (layer : Layer) (table : TileTable)
      → Always (ChargesAs type) (Pricing.typed_cost ar xpu type layer table).0
  xpu_cost-ChargesAs LayerType.x2g layer table = io_time_energy-Always xpu.name layer
  xpu_cost-ChargesAs LayerType.g2g layer table = io_time_energy-Always xpu.name layer
  xpu_cost-ChargesAs LayerType.fc layer table = computed-Always _ layer table (λ time es h. h)
  xpu_cost-ChargesAs LayerType.matmul layer table = computed-Always _ layer table (λ time es h. h)
  xpu_cost-ChargesAs LayerType.act layer table = computed-Always _ layer table (λ time es h. h)
  xpu_cost-ChargesAs LayerType.softmax layer table = computed-Always _ layer table (λ time es h. h)
  xpu_cost-ChargesAs LayerType.norm layer table = computed-Always _ layer table (λ time es h. h)

  get_time_and_energy-ChargesAs :
      (layer : Layer) (table : TileTable)
      → Always (ChargesAs layer.type) (Pricing.get_time_and_energy ar xpu layer table).0
  unfolding Pricing.get_time_and_energy
  get_time_and_energy-ChargesAs layer table = xpu_cost-ChargesAs layer.type layer table

module _ {ck : Clock} (pim : Pim ck) where
  charge-Always :
      (layer : Layer) (found : ck.Time × List ℕ)
      → Always (λ (cost : ck.Time × List ℕ). IsSix cost.1) (charge pim layer found)
  unfolding charge
  charge-Always layer (time, traffic) =
      bind-Always _ (Pim.io_energy pim.energy_table.io traffic) _
        (λ io. bind-Always _ (Pim.last_traffic traffic) _ (λ accesses. (_, _, _, _, _, _, refl)))

module _ {pd : Pandas} {ck : Clock} (pim : Pim ck) where
  product_cost-Always :
      (b : Bool) (layer : Layer) (simulated : Action (Store pd) (ck.Time × List ℕ)) (s : Store pd)
      → Always
          (λ (cost : ck.Time × List ℕ). IsSix cost.1)
          (Pim.product_cost b pim layer simulated s).0
  product_cost-Always true layer simulated s =
      continue_with-Always _ _ (simulated s).0 (simulated s).1
        (λ found s. charge-Always pim layer found)
  product_cost-Always false layer simulated s = (_, _, _, _, _, _, refl)

  pim_cost-ChargesAs :
      (type : LayerType) (layer : Layer) (simulated : Action (Store pd) (ck.Time × List ℕ))
      (s : Store pd)
      → Always (ChargesAs type) (Pim.typed_cost type pim layer simulated s).0
  unfolding Pim.io_time_energy
  pim_cost-ChargesAs LayerType.matmul layer simulated s =
      product_cost-Always (has_score layer.name) layer simulated s
  pim_cost-ChargesAs LayerType.softmax layer simulated s = (_, _, _, _, _, _, refl)
  pim_cost-ChargesAs LayerType.x2g layer simulated s = (_, refl)
  pim_cost-ChargesAs LayerType.fc layer simulated s = tt
  pim_cost-ChargesAs LayerType.act layer simulated s = tt
  pim_cost-ChargesAs LayerType.norm layer simulated s = tt
  pim_cost-ChargesAs LayerType.g2g layer simulated s = tt

-- A device charges every layer as its type says.
abbrev pub Charges : (ck : Clock) {G : Type 0} → Device ck G → Type 0
Charges ck {G = G} device =
    (on_acc : Bool) (layer : Layer) (g : G)
    → Always (ChargesAs layer.type) (device on_acc layer g).0

pub device_cost-Charges :
    (pd : Pandas) (ck : Clock) (host : Host) (su : Setup) (pim : Pim ck) (ar : Arithmetic ck)
    (xpu : XpuDevice ck)
    → Charges ck (device_cost pd ck host su pim (Pricing.get_time_and_energy ar xpu))
unfolding Pim.get_time_and_energy
device_cost-Charges pd ck host su pim ar xpu true layer (g, s) =
    pim_cost-ChargesAs pim layer.type layer _ s
device_cost-Charges pd ck host su pim ar xpu false layer (g, s) =
    get_time_and_energy-ChargesAs ar xpu layer g

module _ (ck : Clock) {G : Type 0} (device : Device ck G) (charges : Charges ck device) where
  pub simulate_block-IsCharged :
      (group_device : Place) (layers : List Layer) (g : G)
      → Always (All IsCharged) (simulate_block {ck = ck} device group_device layers g).0
  unfolding simulate_block
  simulate_block-IsCharged group_device [] g = tt
  simulate_block-IsCharged group_device (layer ∷ rest) g =
      let first = device (select_acc_device group_device layer.type) layer g in
      continue_with-both (ChargesAs layer.type) _ _ first.0 first.1 (charges _ layer g)
        (λ cost s paid.
          let later = simulate_block {ck = ck} device group_device rest s in
          continue_with-both (All IsCharged) _ _ later.0 later.1
            (simulate_block-IsCharged group_device rest s) (λ costs s all_paid. (paid, all_paid)))
