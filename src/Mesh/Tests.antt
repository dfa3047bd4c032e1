-- ===== src/Mesh/Tests.antt =====
-- A log of 52 events, one of them without a worker; and a fleet that is off its target.
use forgenx_engine.Prelude.{
  ℕ, ◌+◌, ◌*◌, ◌^◌, arith, ◌≡◌, refl, ◌++◌, [], ◌∷◌, List, Bool, true, false, Option, none, take,
  replicate, ltb, if_both, if◌then◌else◌,
}
use forgenx_engine.Prelude.Samples.{whole_floats}
use forgenx_engine.Prelude.Table.{Table, lookup}
use forgenx_engine.Mesh.Activity.{Activity, recent, note_all}
use forgenx_engine.Mesh.ActivityLaws.{unbounded_log, recent-note_all}
use forgenx_engine.Mesh.Balancer.{Every, Sorting, BalMiner}
use forgenx_engine.Mesh.Moves.{balance_moves}
use forgenx_engine.Mesh.MoveLaws.{Reaches, balance_moves-Reaches}
use forgenx_engine.Mesh.Placement.{Placements, is_rested, record_placements}
use forgenx_engine.Mesh.PlacementLaws.{record_placements-is_rested}

abbrev joined : Activity
joined = record {
  at = 1;
  kind = b'j' ∷ b'o' ∷ b'i' ∷ b'n' ∷ [];
  worker = b'w' ∷ [];
  from = [];
  to = b'a' ∷ [];
  detail = [];
}

abbrev history : List Activity
history = joined ∷ record joined { worker = [] } ∷ replicate 50 (record joined { at = 2 })

recent-note_all_example : recent (note_all history []) ≡ take 50 (unbounded_log history [])
recent-note_all_example = recent-note_all history

-- A sort, by insertion.
module _ {A : Type 0} (less : A → A → Bool) where
  abbrev insert : A → List A → List A
  insert x [] = x ∷ []
  insert x (y ∷ ys) = let rest = insert x ys in if less y x then y ∷ rest else x ∷ y ∷ ys

  abbrev insertion_sort : List A → List A
  insertion_sort [] = []
  insertion_sort (x ∷ xs) = insert x (insertion_sort xs)

  insert-Every : (P : A → Type 0) (x : A) (ys : List A) → P x → Every P ys → Every P (insert x ys)
  insert-Every P x [] h k = (h, tt)
  insert-Every P x (y ∷ ys) h k =
      if_both (Every P) (less y x) (y ∷ insert x ys) (x ∷ y ∷ ys) (k.0, insert-Every P x ys h k.1)
        (h, k)

  insertion_sort-Every : (P : A → Type 0) (xs : List A) → Every P xs → Every P (insertion_sort xs)
  insertion_sort-Every P [] h = tt
  insertion_sort-Every P (x ∷ xs) h =
      insert-Every P x (insertion_sort xs) h.0 (insertion_sort-Every P xs h.1)

abbrev sorting : Sorting
sorting = record {
  sort = λ less xs. insertion_sort less xs;
  sort-Every = λ P less xs h. insertion_sort-Every less P xs h;
}

abbrev max : ℕ → ℕ → ℕ
max a b = if ltb a b then b else a

-- Two miners, of which the first reaches the coin that should have all of the fleet.
abbrev reaches_b : BalMiner whole_floats sorting max
reaches_b = record {
  worker = b'w' ∷ [];
  hash = 2;
  coin = b'a' ∷ [];
  movable = true;
  alive = (b'a' ∷ [], true) ∷ (b'b' ∷ [], true) ∷ [];
}

abbrev target : Table ℕ
target = (b'b' ∷ [], 1) ∷ []

abbrev fleet : List (BalMiner whole_floats sorting max)
fleet = reaches_b ∷ record reaches_b { worker = b'v' ∷ []; hash = 1; movable = false } ∷ []

moved_fleet :
    balance_moves whole_floats sorting max none target fleet
    ≡ record reaches_b { coin = b'b' ∷ []; movable = false }
      ∷ record reaches_b { worker = b'v' ∷ []; hash = 1; movable = false }
      ∷ []
unfolding balance_moves forgenx_engine.Mesh.Moves.moves forgenx_engine.Mesh.Moves.next_move
    forgenx_engine.Mesh.Moves.best_option forgenx_engine.Mesh.Moves.options
    forgenx_engine.Mesh.Moves.coin_options forgenx_engine.Mesh.Moves.place
    forgenx_engine.Mesh.Moves.settle forgenx_engine.Mesh.Moves.choose
    forgenx_engine.Mesh.Balancer.score forgenx_engine.Mesh.Balancer.actual
    forgenx_engine.Mesh.Balancer.outside_target forgenx_engine.Mesh.Balancer.off_target
    forgenx_engine.Prelude.Table.put forgenx_engine.Prelude.Table.lookup
moved_fleet = refl

balance_moves-Reaches_example :
    Reaches whole_floats sorting max none target 3 fleet
      (balance_moves whole_floats sorting max none target fleet)
balance_moves-Reaches_example = balance_moves-Reaches whole_floats sorting max none target fleet

abbrev no_placements : Placements whole_floats sorting max
no_placements = record { placement = []; moved_at = []; moved = [] }

record_placements-is_rested_example :
    is_rested (40 + 60 * 10 ^ 9) (
      lookup (b'w' ∷ []) (
        (record_placements whole_floats sorting max 40
          ((b'w' ∷ [], b'c' ∷ []) ∷ [])
          fleet
          no_placements).moved_at))
    ≡ false
unfolding lookup
record_placements-is_rested_example =
    record_placements-is_rested whole_floats sorting max 40 (40 + 60 * 10 ^ 9)
      ((b'w' ∷ [], b'c' ∷ []) ∷ []) [] reaches_b
      (record reaches_b { worker = b'v' ∷ []; hash = 1; movable = false } ∷ []) no_placements refl
      (omega arith)
