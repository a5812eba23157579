-- ===== src/System/Perf/Sums.antt =====
-- Each time that is collected is the sum, in the order of the layers, of the times of its layers.
use attacc_simulator_vlm.Prelude.{
  ◌≡◌, refl, ◌∙◌, Bool, true, false, ◌&&◌, not, List, [], ◌∷◌, ◌++◌, concat, arith,
}
use attacc_simulator_vlm.Model.Types.{LayerType, LayerName}
use attacc_simulator_vlm.Ramulator.Machine.{Clock}
use attacc_simulator_vlm.Devices.Arithmetic.{Arithmetic, zero_time}
use attacc_simulator_vlm.System.Perf.{
  Timed, SumPerf, GenPerf, has_ff, has_qkv, has_proj, has_x2g, has_g2g, add_s, s_perf_from,
  collect_s_perf, add_g, block_perf_from, g_perf_from, collect_g_perf,
}

-- Kinds of layers.
abbrev pub type_is : LayerType → LayerType → Bool
type_is LayerType.fc LayerType.fc = true
type_is LayerType.matmul LayerType.matmul = true
type_is LayerType.act LayerType.act = true
type_is LayerType.softmax LayerType.softmax = true
type_is LayerType.norm LayerType.norm = true
type_is LayerType.g2g LayerType.g2g = true
type_is LayerType.x2g LayerType.x2g = true
type_is _ _ = false

abbrev pub is_comm : LayerType → Bool
is_comm LayerType.g2g = true
is_comm LayerType.x2g = true
is_comm _ = false

abbrev pub is_etc : LayerType → Bool
is_etc LayerType.act = true
is_etc LayerType.norm = true
is_etc _ = false

module _ {ck : Clock} (ar : Arithmetic ck) where
  abbrev pub add_if : Bool → ck.Time → ck.Time → ck.Time
  add_if true t acc = ar.plus acc t
  add_if false t acc = acc

  -- The sum of the times of the layers of a kind, from the first to the last.
  abbrev pub total_from : (LayerType → LayerName → Bool) → ck.Time → List (Timed ck) → ck.Time
  total_from p acc [] = acc
  total_from p acc (x ∷ xs) = total_from p (add_if (p x.layer.type x.layer.name) x.exec_time acc) xs

  abbrev pub time_of : (LayerType → LayerName → Bool) → List (Timed ck) → ck.Time
  time_of p = total_from p (zero_time ar)

  abbrev s_totals : SumPerf ck.Time → List (Timed ck) → SumPerf ck.Time
  s_totals p xs = record {
    all = total_from (λ type name. true) p.all xs;
    matmul = total_from (λ type name. type_is LayerType.matmul type) p.matmul xs;
    fc = total_from (λ type name. type_is LayerType.fc type) p.fc xs;
    comm = total_from (λ type name. is_comm type) p.comm xs;
    x2g = total_from (λ type name. type_is LayerType.x2g type) p.x2g xs;
    softmax = total_from (λ type name. type_is LayerType.softmax type) p.softmax xs;
    act = total_from (λ type name. type_is LayerType.act type) p.act xs;
    norm = total_from (λ type name. type_is LayerType.norm type) p.norm xs;
  }

  s_totals-add_s :
      (type : LayerType) (x : Timed ck) (xs : List (Timed ck)) (p : SumPerf ck.Time)
      → x.layer.type ≡ type
      → s_totals (add_s ar type x.exec_time p) xs ≡ s_totals p (x ∷ xs)
  s_totals-add_s LayerType.fc x xs p e = simp e refl
  s_totals-add_s LayerType.matmul x xs p e = simp e refl
  s_totals-add_s LayerType.act x xs p e = simp e refl
  s_totals-add_s LayerType.softmax x xs p e = simp e refl
  s_totals-add_s LayerType.norm x xs p e = simp e refl
  s_totals-add_s LayerType.g2g x xs p e = simp e refl
  s_totals-add_s LayerType.x2g x xs p e = simp e refl

  s_perf_from-s_totals :
      (xs : List (Timed ck)) (p : SumPerf ck.Time) → s_perf_from ar xs p ≡ s_totals p xs
  unfolding s_perf_from
  s_perf_from-s_totals [] p = refl
  s_perf_from-s_totals (x ∷ xs) p =
      s_perf_from-s_totals xs _ ∙ s_totals-add_s x.layer.type x xs p refl

  abbrev pub is_ff : LayerType → LayerName → Bool
  is_ff type name = type_is LayerType.fc type && has_ff name

  abbrev pub is_qkv : LayerType → LayerName → Bool
  is_qkv type name = type_is LayerType.fc type && not (has_ff name) && has_qkv name

  abbrev pub is_prj : LayerType → LayerName → Bool
  is_prj type name =
      type_is LayerType.fc type && not (has_ff name) && not (has_qkv name) && has_proj name

  abbrev pub is_to_acc : LayerType → LayerName → Bool
  is_to_acc type name = is_comm type && has_x2g name

  abbrev pub is_between : LayerType → LayerName → Bool
  is_between type name = is_comm type && not (has_x2g name) && has_g2g name

  abbrev g_totals : GenPerf ck.Time → List (Timed ck) → GenPerf ck.Time
  g_totals p xs = record {
    all = total_from (λ type name. true) p.all xs;
    matmul = total_from (λ type name. type_is LayerType.matmul type) p.matmul xs;
    fc = total_from (λ type name. type_is LayerType.fc type) p.fc xs;
    comm = total_from (λ type name. is_comm type) p.comm xs;
    etc = total_from (λ type name. is_etc type) p.etc xs;
    qkv = total_from is_qkv p.qkv xs;
    prj = total_from is_prj p.prj xs;
    ff = total_from is_ff p.ff xs;
    g2g = total_from is_between p.g2g xs;
    x2g = total_from is_to_acc p.x2g xs;
    softmax = total_from (λ type name. type_is LayerType.softmax type) p.softmax xs;
    act = total_from (λ type name. type_is LayerType.act type) p.act xs;
    norm = total_from (λ type name. type_is LayerType.norm type) p.norm xs;
  }

  abbrev added : Timed ck → GenPerf ck.Time → GenPerf ck.Time
  added x p =
      add_g ar x.layer.type x.layer.name x.exec_time (record p { all = ar.plus p.all x.exec_time })

  g_totals-add_fc :
      (ff qkv proj : Bool) (x : Timed ck) (xs : List (Timed ck)) (p : GenPerf ck.Time)
      → x.layer.type ≡ LayerType.fc
      → has_ff x.layer.name ≡ ff
      → has_qkv x.layer.name ≡ qkv
      → has_proj x.layer.name ≡ proj
      → g_totals (added x p) xs ≡ g_totals p (x ∷ xs)
  g_totals-add_fc true b c x xs p e f g h = simp (e, f) refl
  g_totals-add_fc false true c x xs p e f g h = simp (e, f, g) refl
  g_totals-add_fc false false true x xs p e f g h = simp (e, f, g, h) refl
  g_totals-add_fc false false false x xs p e f g h = simp (e, f, g, h) refl

  g_totals-add_comm :
      (type : LayerType) (to_acc between : Bool) (x : Timed ck) (xs : List (Timed ck))
      (p : GenPerf ck.Time)
      → is_comm type ≡ true
      → x.layer.type ≡ type
      → has_x2g x.layer.name ≡ to_acc
      → has_g2g x.layer.name ≡ between
      → g_totals (added x p) xs ≡ g_totals p (x ∷ xs)
  g_totals-add_comm LayerType.x2g true b x xs p c e f g = simp (e, f) refl
  g_totals-add_comm LayerType.x2g false true x xs p c e f g = simp (e, f, g) refl
  g_totals-add_comm LayerType.x2g false false x xs p c e f g = simp (e, f, g) refl
  g_totals-add_comm LayerType.g2g true b x xs p c e f g = simp (e, f) refl
  g_totals-add_comm LayerType.g2g false true x xs p c e f g = simp (e, f, g) refl
  g_totals-add_comm LayerType.g2g false false x xs p c e f g = simp (e, f, g) refl
  g_totals-add_comm LayerType.fc a b x xs p c e f g = absurd (grind arith)
  g_totals-add_comm LayerType.matmul a b x xs p c e f g = absurd (grind arith)
  g_totals-add_comm LayerType.act a b x xs p c e f g = absurd (grind arith)
  g_totals-add_comm LayerType.softmax a b x xs p c e f g = absurd (grind arith)
  g_totals-add_comm LayerType.norm a b x xs p c e f g = absurd (grind arith)

  g_totals-add_g :
      (type : LayerType) (x : Timed ck) (xs : List (Timed ck)) (p : GenPerf ck.Time)
      → x.layer.type ≡ type
      → g_totals (added x p) xs ≡ g_totals p (x ∷ xs)
  g_totals-add_g LayerType.fc x xs p e = g_totals-add_fc _ _ _ x xs p e refl refl refl
  g_totals-add_g LayerType.g2g x xs p e = g_totals-add_comm _ _ _ x xs p refl e refl refl
  g_totals-add_g LayerType.x2g x xs p e = g_totals-add_comm _ _ _ x xs p refl e refl refl
  g_totals-add_g LayerType.matmul x xs p e = simp e refl
  g_totals-add_g LayerType.act x xs p e = simp e refl
  g_totals-add_g LayerType.softmax x xs p e = simp e refl
  g_totals-add_g LayerType.norm x xs p e = simp e refl

  block_perf_from-g_totals :
      (block rest : List (Timed ck)) (p : GenPerf ck.Time)
      → g_totals (block_perf_from ar block p) rest ≡ g_totals p (block ++ rest)
  unfolding block_perf_from
  block_perf_from-g_totals [] rest p = refl
  block_perf_from-g_totals (x ∷ block) rest p =
      block_perf_from-g_totals block rest _ ∙ g_totals-add_g x.layer.type x (block ++ rest) p refl

  g_perf_from-g_totals :
      (blocks : List (List (Timed ck))) (p : GenPerf ck.Time)
      → g_perf_from ar blocks p ≡ g_totals p (concat blocks)
  unfolding g_perf_from
  g_perf_from-g_totals [] p = refl
  g_perf_from-g_totals (block ∷ blocks) p =
      g_perf_from-g_totals blocks _ ∙ block_perf_from-g_totals block (concat blocks) p

  -- Every time of both dicts is the sum, from the first layer to the last, of the times of its layers: by type,
  -- a dense layer of a generation by the first of 'ff', 'qkv' and 'proj' in its name, and a transfer by the
  -- first of 'x2g' and 'g2g'.
  pub collect_s_perf-collect_g_perf :
      (xs : List (Timed ck)) (blocks : List (List (Timed ck)))
      → let layers = concat blocks in
        (collect_s_perf ar xs ≡ record {
          all = time_of (λ type name. true) xs;
          matmul = time_of (λ type name. type_is LayerType.matmul type) xs;
          fc = time_of (λ type name. type_is LayerType.fc type) xs;
          comm = time_of (λ type name. is_comm type) xs;
          x2g = time_of (λ type name. type_is LayerType.x2g type) xs;
          softmax = time_of (λ type name. type_is LayerType.softmax type) xs;
          act = time_of (λ type name. type_is LayerType.act type) xs;
          norm = time_of (λ type name. type_is LayerType.norm type) xs;
        })
        × (collect_g_perf ar blocks ≡ record {
          all = time_of (λ type name. true) layers;
          matmul = time_of (λ type name. type_is LayerType.matmul type) layers;
          fc = time_of (λ type name. type_is LayerType.fc type) layers;
          comm = time_of (λ type name. is_comm type) layers;
          etc = time_of (λ type name. is_etc type) layers;
          qkv = time_of is_qkv layers;
          prj = time_of is_prj layers;
          ff = time_of is_ff layers;
          g2g = time_of is_between layers;
          x2g = time_of is_to_acc layers;
          softmax = time_of (λ type name. type_is LayerType.softmax type) layers;
          act = time_of (λ type name. type_is LayerType.act type) layers;
          norm = time_of (λ type name. type_is LayerType.norm type) layers;
        })
  unfolding collect_s_perf collect_g_perf
  collect_s_perf-collect_g_perf xs blocks =
      (s_perf_from-s_totals xs _, g_perf_from-g_totals blocks _)
