-- ===== src/Mesh/Placement.antt =====
-- pkg/mesh/balancer.go: what a balancing round remembers of the miners, and until when they rest.
use forgenx_engine.Prelude.{
  ℕ, ◌+◌, ◌-◌, List, [], ◌∷◌, ◌++◌, Bool, true, Option, none, some, ltb, leb, if◌then◌else◌,
}
use forgenx_engine.Prelude.Float.{Floats}
use forgenx_engine.Prelude.Table.{Table, lookup, put}
use forgenx_engine.Coin.Text.{same_text}
use forgenx_engine.Mesh.Balancer.{Sorting, BalMiner, move_cooldown}

abbrev pub text_or : Option (List ℕ) → List ℕ → List ℕ
text_or none c = c
text_or (some placed) c = placed

-- `time.Since(m.movedAt[worker]) >= moveCooldown`; a miner that never moved has the zero time.
unfoldable pub is_rested : (now : ℕ) → Option ℕ → Bool
is_rested now none = true
is_rested now (some at) = leb move_cooldown (now - at)

-- The workers that rest, with the times until they do.
unfoldable pub settled_until : (now : ℕ) → Table ℕ → Table ℕ → Table ℕ
settled_until now [] out = out
settled_until now ((worker, at) ∷ moved_at) out =
    let until = at + move_cooldown in
    settled_until now moved_at (if ltb now until then put worker until out else out)

module _ (fl : Floats) (sorting : Sorting) (max : fl.F → fl.F → fl.F) where
  pub record Placements : Type 0 where
    pub placement : Table (List ℕ)
    pub moved_at : Table ℕ
    pub moved : List (BalMiner fl sorting max)

  -- Each miner with the coin of its placement, and whether it may move.
  unfoldable pub prepare :
      (now : ℕ) → Placements → List (BalMiner fl sorting max) → List (BalMiner fl sorting max)
  prepare now p [] = []
  prepare now p (bm ∷ miners) =
      record bm {
        coin = text_or (lookup bm.worker p.placement) bm.coin;
        movable = is_rested now (lookup bm.worker p.moved_at);
      }
      ∷ prepare now p miners

  unfoldable pub original : List (BalMiner fl sorting max) → Table (List ℕ) → Table (List ℕ)
  original [] coins = coins
  original (bm ∷ miners) coins = original miners (put bm.worker bm.coin coins)

  abbrev to_pin : Option (List ℕ) → BalMiner fl sorting max → List (BalMiner fl sorting max)
  to_pin none bm = bm ∷ []
  to_pin (some c) bm = []

  unfoldable pub record_placement :
      (now : ℕ) → Table (List ℕ) → BalMiner fl sorting max → Placements → Placements
  record_placement now originals bm p =
      let placement = put bm.worker bm.coin p.placement in
      if same_text bm.coin (text_or (lookup bm.worker originals) [])
      then record p {
        placement = placement;
        moved = p.moved ++ to_pin (lookup bm.worker p.placement) bm;
      }
      else record {
        placement = placement;
        moved_at = put bm.worker now p.moved_at;
        moved = p.moved ++ bm ∷ [];
      }

  unfoldable pub record_placements :
      (now : ℕ) → Table (List ℕ) → List (BalMiner fl sorting max) → Placements → Placements
  record_placements now originals [] p = p
  record_placements now originals (bm ∷ miners) p =
      record_placements now originals miners (record_placement now originals bm p)
