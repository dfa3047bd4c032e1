-- ===== src/Mesh/Balancer.antt =====
-- pkg/mesh/balancer.go: which miners a balancing round moves, and to which coins. A map of coins is
-- run through in the order of its list, and a miner is known by its place in the sorted list.
use forgenx_engine.Prelude.{
  ℕ, ◌+◌, ◌-◌, ◌*◌, ◌^◌, List, [], ◌∷◌, Bool, true, false, not, ◌&&◌, ◌||◌, Option, none, some,
  if◌then◌else◌, length,
}
use forgenx_engine.Prelude.Float.{Floats}
use forgenx_engine.Prelude.Table.{Table, lookup, put}
use forgenx_engine.Coin.Text.{same_text}

-- `P` holds of every element.
abbrev pub Every : {A : Type 0} (P : A → Type 0) → List A → Type 0
Every P [] = Unit
Every P (x ∷ xs) = P x × Every P xs

-- `sort.Slice`, of which only this is used: what holds of all elements does so when they are sorted.
pub record Sorting : Type 1 where
  pub sort : {A : Type 0} → (A → A → Bool) → List A → List A
  pub sort-Every :
      {A : Type 0} (P : A → Type 0) (less : A → A → Bool) (xs : List A)
      → Every P xs
      → Every P (sort less xs)

abbrev pub max_moves_per_round : ℕ
max_moves_per_round = 3

-- Thirty minutes in nanoseconds.
abbrev pub move_cooldown : ℕ
move_cooldown = 30 * 60 * 10 ^ 9

abbrev keys : {A : Type 0} → Table A → List (List ℕ)
keys [] = []
keys ((k, v) ∷ m) = k ∷ keys m

abbrev is_some : {A : Type 0} → Option A → Bool
is_some none = false
is_some (some x) = true

-- `math.Max` is the argument `max`.
module _ (fl : Floats) (sorting : Sorting) (max : fl.F → fl.F → fl.F) where
  pub record BalMiner : Type 0 where
    pub worker : List ℕ
    pub hash : fl.F
    pub coin : List ℕ
    pub movable : Bool
    pub alive : Table Bool

  abbrev pub no_float : fl.F
  no_float = fl.of_nat 0

  -- 0.05, 0.02 * 0.02 and 1e-9, the floats nearest to these quotients.
  abbrev pub balance_tolerance : fl.F
  balance_tolerance = fl.div (fl.of_nat 1) (fl.of_nat 20)

  abbrev pub tie_tolerance : fl.F
  tie_tolerance = fl.div (fl.of_nat 1) (fl.of_nat 2500)

  abbrev pub least_gain : fl.F
  least_gain = fl.div (fl.of_nat 1) (fl.of_nat (10 ^ 9))

  abbrev float_or_zero : Option fl.F → fl.F
  float_or_zero none = no_float
  float_or_zero (some x) = x

  abbrev true_or_false : Option Bool → Bool
  true_or_false none = false
  true_or_false (some b) = b

  -- `m[c]`, which is zero where the key is missing.
  abbrev pub amount : List ℕ → Table fl.F → fl.F
  amount c m = float_or_zero (lookup c m)

  abbrev pub is_alive : BalMiner → List ℕ → Bool
  is_alive bm c = true_or_false (lookup c bm.alive)

  unfoldable pub actual : List BalMiner → Table fl.F → fl.F → Table fl.F × fl.F
  actual [] a total = (a, total)
  actual (bm ∷ miners) a total =
      actual miners (put bm.coin (fl.add (amount bm.coin a) bm.hash) a) (fl.add total bm.hash)

  -- The loop over the target of `score`; the pair is (sq, worst).
  unfoldable pub off_target : Table fl.F → fl.F → Table fl.F → fl.F × fl.F → fl.F × fl.F
  off_target a total [] acc = acc
  off_target a total ((c, share) ∷ target) (sq, worst) =
      let d = fl.sub (fl.div (amount c a) total) share in
      off_target a total target (fl.add sq (fl.mul d d), max worst (fl.abs d))

  -- The loop over the coins that miners are on.
  unfoldable pub outside_target : Table fl.F → fl.F → Table fl.F → fl.F × fl.F → fl.F × fl.F
  outside_target target total [] acc = acc
  outside_target target total ((c, v) ∷ a) (sq, worst) =
      let d = fl.div v total in
      outside_target target total a (
        if not (is_some (lookup c target)) && fl.lt no_float v
        then (fl.add sq (fl.mul d d), max worst d)
        else (sq, worst))

  unfoldable pub score : Table fl.F → List BalMiner → fl.F × fl.F
  score target miners =
      let now = actual miners [] no_float in
      if fl.le (now.1) no_float
      then (no_float, no_float)
      else outside_target target (now.1) (now.0)
          (off_target (now.0) (now.1) target (no_float, no_float))

  -- The difficulties of the coins in use.
  abbrev put_unseen : Option fl.F → List ℕ → fl.F → Table fl.F → Table fl.F
  put_unseen none c d diffs = put c d diffs
  put_unseen (some seen) c d diffs = diffs

  unfoldable pub coin_difficulties : (List ℕ → fl.F) → List BalMiner → Table fl.F → Table fl.F
  coin_difficulties net_diff [] diffs = diffs
  coin_difficulties net_diff (bm ∷ miners) diffs =
      coin_difficulties net_diff miners
        (put_unseen (lookup bm.coin diffs) bm.coin (net_diff bm.coin) diffs)

  unfoldable pub unreported : Table fl.F → Bool
  unreported [] = false
  unreported ((c, d) ∷ diffs) = fl.le d no_float || unreported diffs

  -- `rank[c]` for the sorted coins, of which the first has rank `i`.
  unfoldable pub rank_from : ℕ → List ℕ → List (List ℕ) → ℕ
  rank_from i c [] = 0
  rank_from i c (x ∷ coins) =
      let rest = rank_from (i + 1) c coins in if same_text x c then i else rest

  unfoldable pub pairing : List (List ℕ) → List BalMiner → fl.F → fl.F
  pairing coins [] fit = fit
  pairing coins (bm ∷ miners) fit =
      let hardest = length coins - 1 in
      pairing coins miners (
        if fl.lt no_float bm.hash
        then fl.add fit (fl.mul bm.hash (fl.of_nat (hardest - rank_from 0 bm.coin coins)))
        else fit)

  unfoldable pub difficulty_fit : Option (List ℕ → fl.F) → List BalMiner → fl.F
  difficulty_fit none miners = no_float
  difficulty_fit (some net_diff) miners =
      let diffs = coin_difficulties net_diff miners [] in
      let coins = sorting.sort (λ a b. fl.lt (amount a diffs) (amount b diffs)) (keys diffs) in
      if unreported diffs then no_float else pairing coins miners no_float
