-- ===== src/Mesh/MoveLaws.antt =====
-- pkg/mesh/balancer.go: the moves of a balancing round.
use forgenx_engine.Prelude.{
  ℕ, zero, suc, ◌+◌, ◌≡◌, refl, List, [], ◌∷◌, ◌++◌, Bool, true, false, not, ◌||◌, Option, some,
  if◌then◌else◌, get_elem?, drop, Bool-cases, Option-cases, inl, inr, arith, if_both,
}
use forgenx_engine.Prelude.Float.{Floats}
use forgenx_engine.Prelude.Table.{Table}
use forgenx_engine.Coin.Text.{same_text}
use forgenx_engine.Mesh.Balancer.{
  Every, Sorting, BalMiner, no_float, balance_tolerance, least_gain, is_alive, score,
}
use forgenx_engine.Mesh.Moves.{
  Miners, Candidate, place, settle, coin_options, options, choose, best_option, next_move, moves,
  balance_moves,
}

module _ {A : Type 0} where
  Every-append : (P : A → Type 0) (xs ys : List A) → Every P xs → Every P ys → Every P (xs ++ ys)
  Every-append P [] ys h k = k
  Every-append P (x ∷ xs) ys h k = (h.0, Every-append P xs ys h.1 k)

  get_elem?-drop :
      (i : ℕ) (xs : List A) (x : A) (rest : List A)
      → drop i xs ≡ x ∷ rest
      → (get_elem? xs i ≡ some x) × (drop (suc i) xs ≡ rest)
  get_elem?-drop zero [] x rest h = cc
  get_elem?-drop zero (y ∷ xs) x rest h = (cc, cc)
  get_elem?-drop (suc i) [] x rest h = cc
  get_elem?-drop (suc i) (y ∷ xs) x rest h = get_elem?-drop i xs x rest h

module _ (fl : Floats) (sorting : Sorting) (max : fl.F → fl.F → fl.F)
    (net_diff : Option (List ℕ → fl.F)) (target : Table fl.F) where
  -- Moving the miner of the option helps: it is free to move, mines, reaches the coin and is not on
  -- it, and the fleet is closer to the target behind the move.
  pub record IsGood (miners : Miners fl sorting max net_diff target)
      (o : Candidate fl sorting max net_diff target) : Type 0 where
    pub bm : BalMiner fl sorting max
    pub listed : get_elem? miners o.index ≡ some bm
    pub free : bm.movable ≡ true
    pub mining : fl.le bm.hash (no_float fl sorting max) ≡ false
    pub elsewhere : same_text o.coin bm.coin ≡ false
    pub reached : is_alive fl sorting max bm o.coin ≡ true
    pub closer :
        fl.lt
          ((score fl sorting max target
            (place fl sorting max net_diff target o.index o.coin miners)).0)
          (fl.sub ((score fl sorting max target miners).0) (least_gain fl sorting max))
        ≡ true

  -- At most `n` moves, each of a fleet that is off its target, lead from a fleet to another.
  pub data Reaches
      : ℕ
        → Miners fl sorting max net_diff target
        → Miners fl sorting max net_diff target
        → Type 0 where
    at_rest : {n : ℕ} {miners : Miners fl sorting max net_diff target} → Reaches n miners miners
    after_move :
        {n : ℕ} {miners last : Miners fl sorting max net_diff target}
        (o : Candidate fl sorting max net_diff target)
        → fl.le ((score fl sorting max target miners).1) (balance_tolerance fl sorting max) ≡ false
        → IsGood miners o
        → Reaches n (settle fl sorting max net_diff target o.index o.coin miners) last
        → Reaches (suc n) miners last

  choose-Every :
      (P : Candidate fl sorting max net_diff target → Type 0) (best : fl.F)
      (chosen : Candidate fl sorting max net_diff target)
      (more : List (Candidate fl sorting max net_diff target))
      → P chosen
      → Every P more
      → P (choose fl sorting max net_diff target best chosen more)
  unfolding choose
  choose-Every P best chosen [] h k = h
  choose-Every P best chosen (o ∷ more) h k = if_both P (fl.lt (fl.add best _) o.score) chosen _ h (
      choose-Every P best (if fl.lt o.fit chosen.fit then o else chosen) more
        (if_both P (fl.lt o.fit chosen.fit) o chosen k.0 h) k.1)

  not_or : (a b : Bool) → (a || not b) ≡ false → (a ≡ false) × (b ≡ true)
  not_or a b h = (ground arith, ground arith)

  coin_options-Every :
      (miners : Miners fl sorting max net_diff target) (i : ℕ) (bm : BalMiner fl sorting max)
      (coins : Table fl.F)
      → get_elem? miners i ≡ some bm
      → bm.movable ≡ true
      → fl.le bm.hash (no_float fl sorting max) ≡ false
      → Every (IsGood miners) (
          coin_options fl sorting max net_diff target
            ((score fl sorting max target miners).0)
            miners
            i
            bm
            coins)
  unfolding coin_options
  coin_options-Every miners i bm [] listed free mining = tt
  coin_options-Every miners i bm ((c, share) ∷ coins) listed free mining =
      let more = coin_options-Every miners i bm coins listed free mining in
      elim (Bool-cases (same_text c bm.coin || not (is_alive fl sorting max bm c))) [
        | inl e ↦ rw e more
        | inr e ↦
            elim (Bool-cases (
              fl.lt
                ((score fl sorting max target (place fl sorting max net_diff target i c miners)).0)
                (fl.sub ((score fl sorting max target miners).0) (least_gain fl sorting max)))) [
                  | inl lower ↦
                      let both = not_or (same_text c bm.coin) (is_alive fl sorting max bm c) e in
                      rw (e, lower)
                        (
                          record {
                            bm = bm;
                            listed = listed;
                            free = free;
                            mining = mining;
                            elsewhere = both.0;
                            reached = both.1;
                            closer = lower;
                          },
                          more,
                        )
                  | inr higher ↦ rw (e, higher) more
                ]
      ]

  options-Every :
      (miners : Miners fl sorting max net_diff target) (i : ℕ)
      (rest : Miners fl sorting max net_diff target)
      → drop i miners ≡ rest
      → Every (IsGood miners) (
          options fl sorting max net_diff target
            ((score fl sorting max target miners).0)
            miners
            i
            rest)
  unfolding options
  options-Every miners i [] h = tt
  options-Every miners i (bm ∷ rest) h =
      let here = get_elem?-drop i miners bm rest h in
      let same : i + 1 ≡ suc i = omega arith in
      let next : drop (i + 1) miners ≡ rest = rw same here.1 in
      let more = options-Every miners (i + 1) rest next in
      elim (Bool-cases (not bm.movable || fl.le bm.hash (no_float fl sorting max))) [
        | inl e ↦ rw e more
        | inr e ↦
            let free : bm.movable ≡ true = ground arith in
            let mining : fl.le bm.hash (no_float fl sorting max) ≡ false = ground arith in
            rw e (
              Every-append (IsGood miners) _ _
                (coin_options-Every miners i bm target here.0 free mining) more)
      ]

  best_option-holds :
      (P : Candidate fl sorting max net_diff target → Type 0)
      (sorted : List (Candidate fl sorting max net_diff target))
      (o : Candidate fl sorting max net_diff target)
      → Every P sorted
      → best_option fl sorting max net_diff target sorted ≡ some o
      → P o
  unfolding best_option
  best_option-holds P [] o all h = cc
  best_option-holds P (first ∷ more) o all h =
      let same : choose fl sorting max net_diff target first.score first more ≡ o = cc in
      rw same at (choose-Every P first.score first more all.0 all.1)

  -- What the loop chooses is a good move, of a fleet that is off its target.
  next_move-IsGood :
      (miners : Miners fl sorting max net_diff target)
      (o : Candidate fl sorting max net_diff target)
      → next_move fl sorting max net_diff target miners ≡ some o
      → (fl.le ((score fl sorting max target miners).1) (balance_tolerance fl sorting max) ≡ false)
        × IsGood miners o
  unfolding next_move
  next_move-IsGood miners o h =
      elim (Bool-cases
        (fl.le ((score fl sorting max target miners).1) (balance_tolerance fl sorting max))) [
          | inl e ↦ let none_chosen = rw e at h in cc
          | inr e ↦ (
            e,
            best_option-holds (IsGood miners) _ o
                (sorting.sort-Every (IsGood miners) _ _ (options-Every miners 0 miners refl))
                (rw e at h),
          )
        ]

  moves-Reaches :
      (n : ℕ) (miners : Miners fl sorting max net_diff target)
      → Reaches n miners (moves fl sorting max net_diff target n miners)
  unfolding moves
  moves-Reaches zero miners = at_rest
  moves-Reaches (suc n) miners =
      elim (Option-cases (next_move fl sorting max net_diff target miners)) [
        | inl e ↦ rw (moves, e) at_rest
        | inr (o, e) ↦
            let good = next_move-IsGood miners o e in
            rw (moves, e)
              (after_move o good.0 good.1
                (moves-Reaches n (settle fl sorting max net_diff target o.index o.coin miners)))
      ]

  -- A balancing round makes at most three moves, one after the other, each of a fleet in which a coin
  -- is off its target by more than the tolerance, and each a good one.
  pub balance_moves-Reaches :
      (miners : Miners fl sorting max net_diff target)
      → Reaches 3 miners (balance_moves fl sorting max net_diff target miners)
  unfolding balance_moves
  balance_moves-Reaches miners = moves-Reaches 3 miners
