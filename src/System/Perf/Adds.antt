-- ===== src/System/Perf/Adds.antt =====
-- Where times are added without rounding, the parts of a time add up to it.
use attacc_simulator_vlm.Prelude.{◌+◌, ◌≡◌, Bool, true, false, ◌||◌, List, [], ◌∷◌, All, arith}
use attacc_simulator_vlm.Model.Types.{LayerType, LayerName}
use attacc_simulator_vlm.Ramulator.Machine.{Clock}
use attacc_simulator_vlm.Devices.Arithmetic.{Arithmetic, IsExact}
use attacc_simulator_vlm.System.Perf.{
  Timed, SumPerf, GenPerf, has_ff, has_qkv, has_proj, has_x2g, has_g2g, add_s, s_perf_from,
  collect_s_perf, add_fc, add_comm, add_g, block_perf_from, g_perf_from, collect_g_perf,
}

-- A dense layer or a transfer whose name tells its part.
abbrev pub IsNamedAs : LayerType → LayerName → Type 0
IsNamedAs LayerType.fc name = has_ff name || has_qkv name || has_proj name ≡ true
IsNamedAs LayerType.g2g name = has_x2g name || has_g2g name ≡ true
IsNamedAs LayerType.x2g name = has_x2g name || has_g2g name ≡ true
IsNamedAs _ name = Unit

abbrev pub IsNamed : {ck : Clock} → Timed ck → Type 0
IsNamed x = IsNamedAs x.layer.type x.layer.name

module _ {ck : Clock} (ar : Arithmetic ck) (ex : IsExact ar) where
  open ex use {value, value_zero, value_plus}

  pub record AddsUp (p : SumPerf ck.Time) : Type 0 where
    pub parts :
        value p.all
        ≡ value p.matmul + value p.fc + value p.comm + value p.softmax + value p.act + value p.norm

  pub record GenAddsUp (p : GenPerf ck.Time) : Type 0 where
    pub parts :
        value p.all ≡ value p.matmul + value p.fc + value p.comm + value p.etc + value p.softmax
    pub dense : value p.fc ≡ value p.qkv + value p.prj + value p.ff
    pub transfers : value p.comm ≡ value p.x2g + value p.g2g
    pub etc : value p.etc ≡ value p.act + value p.norm

  add_s-AddsUp :
      (type : LayerType) (t : ck.Time) (p : SumPerf ck.Time) → AddsUp p → AddsUp (add_s ar type t p)
  add_s-AddsUp LayerType.fc t p h = omega (arith, value_plus)
  add_s-AddsUp LayerType.matmul t p h = omega (arith, value_plus)
  add_s-AddsUp LayerType.act t p h = omega (arith, value_plus)
  add_s-AddsUp LayerType.softmax t p h = omega (arith, value_plus)
  add_s-AddsUp LayerType.norm t p h = omega (arith, value_plus)
  add_s-AddsUp LayerType.g2g t p h = omega (arith, value_plus)
  add_s-AddsUp LayerType.x2g t p h = omega (arith, value_plus)

  s_perf_from-AddsUp :
      (xs : List (Timed ck)) (p : SumPerf ck.Time) → AddsUp p → AddsUp (s_perf_from ar xs p)
  unfolding s_perf_from
  s_perf_from-AddsUp [] p h = h
  s_perf_from-AddsUp (x ∷ xs) p h =
      s_perf_from-AddsUp xs _ (add_s-AddsUp x.layer.type x.exec_time p h)

  -- The state between the addition to 'all' and the addition to a part.
  abbrev Owes : ck.Time → GenPerf ck.Time → Type 0
  Owes t p =
      (value p.all
        ≡ value p.matmul + value p.fc + value p.comm + value p.etc + value p.softmax + value t)
      × (value p.fc ≡ value p.qkv + value p.prj + value p.ff)
      × (value p.comm ≡ value p.x2g + value p.g2g)
      × (value p.etc ≡ value p.act + value p.norm)

  add_fc-GenAddsUp :
      (ff qkv proj : Bool) (t : ck.Time) (p : GenPerf ck.Time)
      → ff || qkv || proj ≡ true
      → Owes t p
      → GenAddsUp (add_fc ar ff qkv proj t (record p { fc = ar.plus p.fc t }))
  add_fc-GenAddsUp true b c t p n h = omega (arith, value_plus)
  add_fc-GenAddsUp false true c t p n h = omega (arith, value_plus)
  add_fc-GenAddsUp false false true t p n h = omega (arith, value_plus)
  add_fc-GenAddsUp false false false t p n h = cc

  add_comm-GenAddsUp :
      (to_acc between : Bool) (t : ck.Time) (p : GenPerf ck.Time)
      → to_acc || between ≡ true
      → Owes t p
      → GenAddsUp (add_comm ar to_acc between t (record p { comm = ar.plus p.comm t }))
  add_comm-GenAddsUp true b t p n h = omega (arith, value_plus)
  add_comm-GenAddsUp false true t p n h = omega (arith, value_plus)
  add_comm-GenAddsUp false false t p n h = cc

  add_g-GenAddsUp :
      (type : LayerType) (name : LayerName) (t : ck.Time) (p : GenPerf ck.Time)
      → IsNamedAs type name
      → Owes t p
      → GenAddsUp (add_g ar type name t p)
  add_g-GenAddsUp LayerType.fc name t p n h = add_fc-GenAddsUp _ _ _ t p n h
  add_g-GenAddsUp LayerType.g2g name t p n h = add_comm-GenAddsUp _ _ t p n h
  add_g-GenAddsUp LayerType.x2g name t p n h = add_comm-GenAddsUp _ _ t p n h
  add_g-GenAddsUp LayerType.matmul name t p n h = omega (arith, value_plus)
  add_g-GenAddsUp LayerType.act name t p n h = omega (arith, value_plus)
  add_g-GenAddsUp LayerType.softmax name t p n h = omega (arith, value_plus)
  add_g-GenAddsUp LayerType.norm name t p n h = omega (arith, value_plus)

  block_perf_from-GenAddsUp :
      (block : List (Timed ck)) (p : GenPerf ck.Time)
      → All IsNamed block
      → GenAddsUp p
      → GenAddsUp (block_perf_from ar block p)
  unfolding block_perf_from
  block_perf_from-GenAddsUp [] p n h = h
  block_perf_from-GenAddsUp (x ∷ block) p n h = block_perf_from-GenAddsUp block _ n.1 (
      add_g-GenAddsUp x.layer.type x.layer.name x.exec_time _ n.0
        (omega (arith, value_plus), h.dense, h.transfers, h.etc))

  g_perf_from-GenAddsUp :
      (blocks : List (List (Timed ck))) (p : GenPerf ck.Time)
      → All (All IsNamed) blocks
      → GenAddsUp p
      → GenAddsUp (g_perf_from ar blocks p)
  unfolding g_perf_from
  g_perf_from-GenAddsUp [] p n h = h
  g_perf_from-GenAddsUp (block ∷ blocks) p n h =
      g_perf_from-GenAddsUp blocks _ n.1 (block_perf_from-GenAddsUp block p n.0 h)

  -- Where times are added without rounding, the parts of both dicts add up: the time of a summarisation over
  -- the types of its layers, and that of a generation whose dense layers and transfers are named for their
  -- parts over the types, the dense part over qkv, prj and ff, the transfers over x2g and g2g, and the rest
  -- over activations and norms.
  pub collect_g_perf-GenAddsUp :
      (xs : List (Timed ck)) (blocks : List (List (Timed ck)))
      → All (All IsNamed) blocks
      → AddsUp (collect_s_perf ar xs) × GenAddsUp (collect_g_perf ar blocks)
  unfolding collect_s_perf collect_g_perf
  collect_g_perf-GenAddsUp xs blocks n = (
    s_perf_from-AddsUp xs _ (omega (arith, value_zero)),
    g_perf_from-GenAddsUp blocks _ n (omega (arith, value_zero)),
  )
