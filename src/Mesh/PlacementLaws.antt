-- ===== src/Mesh/PlacementLaws.antt =====
-- pkg/mesh/balancer.go: the cooldown behind a move.
use forgenx_engine.Prelude.{
  ℕ, ◌+◌, ◌*◌, ◌^◌, ◌<◌, ◌≡◌, ◌∙◌, List, [], ◌∷◌, ◌++◌, false, some, Bool-cases, inl, inr, arith,
  if_both,
}
use forgenx_engine.Prelude.Float.{Floats}
use forgenx_engine.Prelude.Table.{
  Table, lookup, put, lookup-put_self, lookup-put_other, same_text_eq,
}
use forgenx_engine.Coin.Text.{same_text}
use forgenx_engine.Mesh.Balancer.{Sorting, BalMiner}
use forgenx_engine.Mesh.Placement.{
  text_or, is_rested, Placements, record_placement, record_placements,
}

stays_put :
    (now : ℕ) (k w : List ℕ) (m : Table ℕ)
    → lookup w m ≡ some now
    → lookup w (put k now m) ≡ some now
stays_put now k w m h = elim (Bool-cases (same_text k w)) [
  | inl e ↦ let same = same_text_eq k w e in rw same (lookup-put_self w now m)
  | inr e ↦ lookup-put_other k w now m e ∙ h
]

module _ (fl : Floats) (sorting : Sorting) (max : fl.F → fl.F → fl.F) where
  abbrev MovedNow : (now : ℕ) → List ℕ → Placements fl sorting max → Type 0
  MovedNow now w p = lookup w p.moved_at ≡ some now

  record_placements-keeps :
      (now : ℕ) (originals : Table (List ℕ)) (w : List ℕ) (miners : List (BalMiner fl sorting max))
      (p : Placements fl sorting max)
      → MovedNow now w p
      → MovedNow now w (record_placements fl sorting max now originals miners p)
  unfolding record_placements record_placement
  record_placements-keeps now originals w [] p h = h
  record_placements-keeps now originals w (bm ∷ miners) p h =
      record_placements-keeps now originals w miners _ (
        if_both (MovedNow now w) (same_text bm.coin (text_or (lookup bm.worker originals) [])) _ _ h
          (stays_put now bm.worker w p.moved_at h))

  moved_now :
      (now : ℕ) (originals : Table (List ℕ)) (before : List (BalMiner fl sorting max))
      (bm : BalMiner fl sorting max) (after : List (BalMiner fl sorting max))
      (p : Placements fl sorting max)
      → same_text bm.coin (text_or (lookup bm.worker originals) []) ≡ false
      → MovedNow now bm.worker
          (record_placements fl sorting max now originals (before ++ bm ∷ after) p)
  unfolding record_placements
  moved_now now originals [] bm after p h =
      record_placements-keeps now originals bm.worker after _
        (unfold record_placement in rw h (lookup-put_self bm.worker now p.moved_at))
  moved_now now originals (first ∷ before) bm after p h =
      moved_now now originals before bm after
        (record_placement fl sorting max now originals first p) h

  -- A miner to which a round gave another coin may not move again within thirty minutes.
  pub record_placements-is_rested :
      (now later : ℕ) (originals : Table (List ℕ)) (before : List (BalMiner fl sorting max))
      (bm : BalMiner fl sorting max) (after : List (BalMiner fl sorting max))
      (p : Placements fl sorting max)
      → same_text bm.coin (text_or (lookup bm.worker originals) []) ≡ false
      → later < now + 30 * 60 * 10 ^ 9
      → is_rested later (
          lookup bm.worker
            ((record_placements fl sorting max now originals (before ++ bm ∷ after) p).moved_at))
        ≡ false
  unfolding is_rested
  record_placements-is_rested now later originals before bm after p h soon =
      rw (moved_now now originals before bm after p h) (ground arith)
