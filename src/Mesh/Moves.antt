-- ===== src/Mesh/Moves.antt =====
-- pkg/mesh/balancer.go: the moves of a balancing round.
use forgenx_engine.Prelude.{
  ℕ, zero, suc, ◌+◌, List, [], ◌∷◌, ◌++◌, false, not, ◌||◌, Option, none, some, if◌then◌else◌,
}
use forgenx_engine.Prelude.Float.{Floats}
use forgenx_engine.Prelude.Table.{Table}
use forgenx_engine.Coin.Text.{same_text}
use forgenx_engine.Mesh.Balancer.{
  Sorting, BalMiner, max_moves_per_round, no_float, balance_tolerance, tie_tolerance, least_gain,
  is_alive, score, difficulty_fit,
}

module _ (fl : Floats) (sorting : Sorting) (max : fl.F → fl.F → fl.F)
    (net_diff : Option (List ℕ → fl.F)) (target : Table fl.F) where
  abbrev pub Miners : Type 0
  Miners = List (BalMiner fl sorting max)

  -- `index` stands for the pointer to the miner.
  pub record Candidate : Type 0 where
    pub index : ℕ
    pub coin : List ℕ
    pub score : fl.F
    pub fit : fl.F

  -- `bm.coin = c` for the miner at an index.
  unfoldable pub place : ℕ → List ℕ → Miners → Miners
  place i c [] = []
  place zero c (bm ∷ miners) = record bm { coin = c } ∷ miners
  place (suc i) c (bm ∷ miners) = bm ∷ place i c miners

  -- The move that a round settles on.
  unfoldable pub settle : ℕ → List ℕ → Miners → Miners
  settle i c [] = []
  settle zero c (bm ∷ miners) = record bm { coin = c; movable = false } ∷ miners
  settle (suc i) c (bm ∷ miners) = bm ∷ settle i c miners

  -- The coins of the target to which moving one miner helps.
  unfoldable pub coin_options :
      fl.F → Miners → ℕ → BalMiner fl sorting max → Table fl.F → List Candidate
  coin_options current miners i bm [] = []
  coin_options current miners i bm ((c, share) ∷ coins) =
      let more = coin_options current miners i bm coins in
      let moved = place i c miners in
      let sc = (score fl sorting max target moved).0 in
      if same_text c bm.coin || not (is_alive fl sorting max bm c)
      then more
      else if fl.lt sc (fl.sub current (least_gain fl sorting max))
      then record {
        index = i;
        coin = c;
        score = sc;
        fit = difficulty_fit fl sorting max net_diff moved;
      }
        ∷ more
      else more

  unfoldable pub options : fl.F → Miners → ℕ → Miners → List Candidate
  options current miners i [] = []
  options current miners i (bm ∷ rest) =
      let more = options current miners (i + 1) rest in
      if not bm.movable || fl.le bm.hash (no_float fl sorting max)
      then more
      else coin_options current miners i bm target ++ more

  -- The loop over the sorted options behind the first, which stops where one is too far off.
  unfoldable pub choose : fl.F → Candidate → List Candidate → Candidate
  choose best chosen [] = chosen
  choose best chosen (o ∷ more) =
      let next = if fl.lt o.fit chosen.fit then o else chosen in
      let rest = choose best next more in
      if fl.lt (fl.add best (tie_tolerance fl sorting max)) o.score then chosen else rest

  unfoldable pub best_option : List Candidate → Option Candidate
  best_option [] = none
  best_option (o ∷ more) = some (choose o.score o more)

  -- One turn of the loop over the moves, up to the choice; `none` where it breaks.
  unfoldable pub next_move : Miners → Option Candidate
  next_move miners =
      let now = score fl sorting max target miners in
      if fl.le (now.1) (balance_tolerance fl sorting max)
      then none
      else best_option (
          sorting.sort (λ a b. fl.lt (Candidate.score a) (Candidate.score b))
            (options (now.0) miners 0 miners))

  unfoldable pub moves : ℕ → Miners → Miners
  moves zero miners = miners
  moves (suc n) miners = elim (next_move miners) [
    | none ↦ miners
    | some o ↦ moves n (settle o.index o.coin miners)
  ]

  unfoldable pub balance_moves : Miners → Miners
  balance_moves miners = moves max_moves_per_round miners
