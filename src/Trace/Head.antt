-- ===== src/Trace/Head.antt =====
-- The global lists of the trace generators. `heads` bundles what `cmd_score_wrgb[i]`, …,
-- `cmd_context_mvsb[i]` and `valid_channels[i]` hold, since the code extends the eight together.
use attacc_simulator_vlm.Prelude.{
  ℕ, zero, suc, ◌+◌, ◌*◌, List, [], ◌∷◌, ◌++◌, map, range, ◌-◌, ◌%◌, ◌||◌, ◌==◌, if◌then◌else◌,
  flat_map,
}
use attacc_simulator_vlm.Trace.Command.{Opcode, Command, pim_sfm}
use attacc_simulator_vlm.Trace.Gs

pub record Head : Type 0 where
  pub score_wrgb : List Command
  pub score_mac : List (List Command)
  pub score_mvsb : List (List Command)
  pub sfm : List Command
  pub context_mvgb : List Command
  pub context_mac : List (List Command)
  pub context_mvsb : List (List Command)
  pub valid_channel : ℕ

-- The lists `[]` that `Attention` appends, with `valid_channels.append(valid_channel)`.
abbrev pub no_commands : ℕ → Head
no_commands valid_channel = record {
  score_wrgb = [];
  score_mac = [];
  score_mvsb = [];
  sfm = [];
  context_mvgb = [];
  context_mac = [];
  context_mvsb = [];
  valid_channel = valid_channel;
}

-- Appending the commands of `new` to the lists of `old`.
abbrev pub extend : Head → Head → Head
extend new old = record {
  score_wrgb = old.score_wrgb ++ new.score_wrgb;
  score_mac = old.score_mac ++ new.score_mac;
  score_mvsb = old.score_mvsb ++ new.score_mvsb;
  sfm = old.sfm ++ new.sfm;
  context_mvgb = old.context_mvgb ++ new.context_mvgb;
  context_mac = old.context_mac ++ new.context_mac;
  context_mvsb = old.context_mvsb ++ new.context_mvsb;
  valid_channel = old.valid_channel;
}

-- The update of the entry `itr`.
abbrev pub extend_at : ℕ → Head → List Head → List Head
extend_at i new [] = []
extend_at zero new (h ∷ hs) = extend new h ∷ hs
extend_at (suc i) new (h ∷ hs) = h ∷ extend_at i new hs

-- `for lch in range(valid_channel)`: the command `op` for each legacy channel, at the place `rest`
-- behind the channel's own base.
abbrev pub over_channels : ℕ → Opcode → ℕ → ℕ → List Command
over_channels valid_channel op addr_offset rest =
    map (λ lch. record { op = op; addr = addr_offset + lch * Gs.ch + rest }) (range valid_channel)

-- `softmax(L)`, the same in the three files.
unfoldable pub softmax : ℕ → List Command
softmax valid_channel = over_channels valid_channel pim_sfm 0 0

-- `if n_idx % 16 == 15 or n_idx == rows - 1: …` over `range(rows)`: one `part` behind every sixteenth
-- row and behind the last row.
unfoldable pub every_sixteenth : ℕ → List Command → List (List Command)
every_sixteenth rows part =
    flat_map (λ n_idx. if n_idx % 16 == 15 || n_idx == rows - 1 then part ∷ [] else []) (range rows)
