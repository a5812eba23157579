-- ===== src/Model/Build/Graphs.antt =====
-- The whole graph of `build`: one group for each entry of the routing that has layers, with the work of
-- the model in each.
use attacc_simulator_vlm.Prelude.{
  ℕ, ◌-◌, ◌≡◌, refl, sym, ap, ◌∙◌, subst, Bool, List, [], ◌∷◌, ◌++◌, map, append-nil, append_assoc,
  length, All, Option, none, true, ==_refl, ◌==◌, if◌then◌else◌, arith, Bool-cases, inl, inr, some,
  ok,
}
use attacc_simulator_vlm.Model.Layer.{Layer}
use attacc_simulator_vlm.Model.Routing.{GroupName, all, l, Entry, Routing, to_groups}
use attacc_simulator_vlm.Model.Routing.Counts.{total_count, total_count-to_groups}
use attacc_simulator_vlm.Model.Transformer.{Transformer}
use attacc_simulator_vlm.Model.Vision.{Floats, ImageSize}
use attacc_simulator_vlm.Model.VisionDecoder.{build_vision}
use attacc_simulator_vlm.Model.Decoder.Splits.{IsSharded}
use attacc_simulator_vlm.Model.Decoder.SumWork.{SumWork, build_sum-SumWork}
use attacc_simulator_vlm.Model.Build.Names.{
  Distinct, names_of, keys_of, Distinct-without, put_group-new, keys_of-snoc, to_groups-Distinct,
}
use attacc_simulator_vlm.Model.Build.Stages.{Stages, gen_stages-Stages}
use attacc_simulator_vlm.Model.Build.{
  Group, Graph, on_hetero, first_index, first_group, same_group, build_group, build_groups, build,
}

-- The entries that stand for layers.
abbrev pub kept : List Entry → List Entry
kept [] = []
kept (e ∷ es) = let rest = kept es in if e.count == 0 then rest else e ∷ rest

total_count-kept : (es : List Entry) → total_count (kept es) ≡ total_count es
total_count-kept [] = refl
total_count-kept (e ∷ es) = ground (arith, total_count-kept es)

abbrev pub first_of : List (GroupName × Group) → Option Group
first_of [] = none
first_of ((name, g) ∷ rest) = some g

same_group_refl : (x : GroupName) → same_group x x ≡ true
same_group_refl all = refl
same_group_refl GroupName.acc = refl
same_group_refl GroupName.gpu = refl
same_group_refl (l i) = ==_refl i

-- A graph whose routing is that of its groups repeats the first of them.
first_group-eq-first_of :
    (new : List (GroupName × Group)) (P : Group → Type 0)
    → All (λ (p : GroupName × Group). (p.0 ≡ p.1.entry.group_name) × P p.1) new
    → (vision : List Layer)
    → first_group (record {
      vision_decoder = vision;
      routing_meta = map (λ (p : GroupName × Group). p.1.entry) new;
      groups = new;
    })
      ≡ ok (first_of new)
unfolding first_group
first_group-eq-first_of [] P h vision = refl
first_group-eq-first_of ((name, g) ∷ rest) P h vision =
    rw (h.0.0, same_group_refl g.entry.group_name)

module _ (t : Transformer) (dbyte batch lin lout : ℕ) where
  -- A group with what is stated in `SumWork` and `GenWork`: its summarisation graph, and a
  -- graph for each later token.
  pub record HasWork (g : Group) : Type 0 where
    pub summarisation : SumWork t dbyte batch lin (on_hetero g.entry.device) g.sum_decoder
    pub stage_count : length g.gen_decoder ≡ lout - 1
    pub stages : Stages t dbyte batch lin (on_hetero g.entry.device) 1 g.gen_decoder

  -- What `build` adds to a graph for the entries `rs`.
  pub record IsFilled (rs : List Entry) (before after : Graph) : Type 0 where
    pub vision : after.vision_decoder ≡ before.vision_decoder
    pub meta : after.routing_meta ≡ before.routing_meta ++ kept rs
    pub new : List (GroupName × Group)
    pub groups : after.groups ≡ before.groups ++ new
    pub entries : map (λ (p : GroupName × Group). p.1.entry) new ≡ kept rs
    pub work : All (λ (p : GroupName × Group). (p.0 ≡ p.1.entry.group_name) × HasWork p.1) new

  first_group-IsFilled :
      (rs : List Entry) (vision : List Layer) (g : Graph)
      → (f : IsFilled rs (record { vision_decoder = vision; routing_meta = []; groups = [] }) g)
      → first_group g ≡ ok (first_of f.new)
  unfolding first_group
  first_group-IsFilled rs vision g f =
      rw (f.meta, f.groups, sym f.entries) (first_group-eq-first_of f.new HasWork f.work vision)

  module _ (v : IsSharded t dbyte) where
    group_built :
        (e : Entry)
        → (g : Group) × (build_group t batch lin lout e ≡ ok g) × (g.entry ≡ e) × HasWork g
    unfolding build_group
    group_built e =
        let hetero = on_hetero e.device in
        let (s, built, work) =
          build_sum-SumWork t dbyte v batch lin hetero (first_index e.indices) in
        let (ds, staged, n, stages) = gen_stages-Stages t dbyte batch lin hetero v lout in
        (
          record { entry = e; sum_decoder = s; gen_decoder = ds },
          rw (built, staged),
          refl,
          record { summarisation = work; stage_count = n; stages = stages },
        )

    build_groups-IsFilled :
        (rs : List Entry) (g : Graph)
        → Distinct (keys_of g.groups ++ names_of rs)
        → (after : Graph) × (build_groups t batch lin lout rs g ≡ ok after) × IsFilled rs g after
    unfolding build_groups
    build_groups-IsFilled [] g h = (
      g,
      refl,
      record {
        vision = refl;
        meta = sym (append-nil g.routing_meta);
        new = [];
        groups = sym (append-nil g.groups);
        entries = refl;
        work = tt;
      },
    )
    build_groups-IsFilled (e ∷ rs) g h = elim (Bool-cases (e.count == 0)) [
      | inl empty ↦
          let (after, built, f) =
            build_groups-IsFilled rs g
              (Distinct-without (keys_of g.groups) e.group_name (names_of rs) h) in
          (
            after,
            rw empty built,
            record {
              vision = f.vision;
              meta = rw empty f.meta;
              new = f.new;
              groups = f.groups;
              entries = rw empty f.entries;
              work = f.work;
            },
          )
      | inr some_layers ↦
          let (group, grouped, same_entry, work) = group_built e in
          let next : Graph = record g {
            routing_meta = g.routing_meta ++ e ∷ [];
            groups = g.groups ++ (e.group_name, group) ∷ [];
          } in
          let apart =
            subst Distinct (sym (keys_of-snoc g.groups e.group_name group (names_of rs))) h in
          let (after, built, f) = build_groups-IsFilled rs next apart in
          (
            after,
            rw (some_layers, grouped, put_group-new g.groups e.group_name group (names_of rs) h)
                built,
            record {
              vision = f.vision;
              meta = rw some_layers (f.meta ∙ append_assoc g.routing_meta (e ∷ []) (kept rs));
              new = (e.group_name, group) ∷ f.new;
              groups = f.groups ∙ append_assoc g.groups ((e.group_name, group) ∷ []) f.new;
              entries = rw (some_layers, same_entry, f.entries);
              work = ((ap (λ (x : Entry). x.group_name) (sym same_entry), work), f.work);
            },
          )
    ]

    module _ (fl : Floats) where
      -- For a model whose shards are even, a routing of `Routing` and a vision graph that is built,
      -- `build` returns a graph that keeps the routing, whose counts add up to the decoder layers,
      -- and whose groups are those of the routing's entries, in order and none overwritten, each
      -- with a summarisation graph and lout - 1 generation graphs whose FLOPs of FC, MATMUL and
      -- softmax layers and whose bytes of X2G layers are those that `SumWork` and `GenWork` state;
      -- the attributes `sum_decoder` and `gen_decoder` repeat the first of them.
      pub build-IsFilled :
          (r : Routing) (attn_on_hetero : Bool) (image_size : ImageSize) (vision : List Layer)
          → build_vision fl t batch image_size ≡ ok vision
          → (g : Graph) × (build fl t batch lin lout attn_on_hetero
                (some (to_groups r t.ndec))
                image_size
              ≡ ok g)
            × (total_count g.routing_meta ≡ t.ndec)
            × (f : IsFilled
                (to_groups r t.ndec)
                (record { vision_decoder = vision; routing_meta = []; groups = [] })
                g)
            × (first_group g ≡ ok (first_of f.new))
      unfolding build
      build-IsFilled r attn_on_hetero image_size vision h =
          let start : Graph = record { vision_decoder = vision; routing_meta = []; groups = [] } in
          let (g, built, f) =
            build_groups-IsFilled (to_groups r t.ndec) start (to_groups-Distinct r t.ndec) in
          (
            g,
            rw h built,
            rw f.meta (total_count-kept (to_groups r t.ndec) ∙ total_count-to_groups r t.ndec),
            f,
            first_group-IsFilled (to_groups r t.ndec) vision g f,
          )
