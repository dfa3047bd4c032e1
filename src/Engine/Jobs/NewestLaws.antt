-- ===== src/Engine/Jobs/NewestLaws.antt =====
-- pkg/engine/jobmanager.go: the jobs that pruning keeps.
use forgenx_engine.Prelude.{
  ℕ, zero, suc, ◌+◌, ◌≤◌, ◌<◌, ◌≡◌, refl, true, false, List, [], ◌∷◌, none, some, arith, if_both,
  if_cases, length, inl, inr, ◌⊎◌, min, ltb, Bool-cases, get_elem?,
}
use forgenx_engine.Prelude.Bytes.{All}
use forgenx_engine.Prelude.Table.{Table, lookup, remove, same_text_self, same_text_eq}
use forgenx_engine.Coin.Text.{same_text}
use forgenx_engine.Engine.Jobs.{JobData, created_at, oldest, prune_loop, prune_jobs}
use forgenx_engine.Engine.Jobs.PruneLaws.{HasKey, oldest-HasKey}

-- The keys of a map are different.
abbrev pub IsMap : Table ℕ → Type 0
IsMap [] = Unit
IsMap ((k, ref) ∷ m) = (lookup k m ≡ none) × IsMap m

abbrev pub In : (List ℕ × ℕ) → Table ℕ → Type 0
In entry [] = ⊥
In entry (x ∷ m) = (entry ≡ x) ⊎ In entry m

-- When the job of an entry was made.
abbrev pub age : List JobData → (List ℕ × ℕ) → ℕ
age store entry = created_at (get_elem? store (entry.1))

remove-absent : (k : List ℕ) (m : Table ℕ) → lookup k m ≡ none → remove k m ≡ m
unfolding lookup remove
remove-absent k [] h = refl
remove-absent k ((j, w) ∷ m) h = elim (Bool-cases (same_text j k)) [
  | inl e ↦ let found = rw e at h in cc
  | inr e ↦ let rest = remove-absent k m (rw e at h) in rw (e, rest) refl
]

-- On a map, removing a key that is there takes one entry away.
length-remove :
    (k : List ℕ) (m : Table ℕ) → IsMap m → HasKey k m → length (remove k m) + 1 ≡ length m
unfolding remove
length-remove k [] u h = elim h [ ]
length-remove k ((j, w) ∷ m) u h = elim (Bool-cases (same_text j k)) [
  | inl e ↦
      let same = same_text_eq j k e in
      let rest = remove-absent k m (rw same at (u.0)) in rw (e, rest) (omega arith)
  | inr e ↦ elim h [
    | inl e' ↦ let bad : false ≡ true = rw e at e' in cc
    | inr h' ↦ rw e (omega (arith, length-remove k m u.1 h'))
  ]
]

lookup-remove : (j k : List ℕ) (m : Table ℕ) → lookup j m ≡ none → lookup j (remove k m) ≡ none
unfolding lookup remove
lookup-remove j k [] h = refl
lookup-remove j k ((i, w) ∷ m) h = elim (Bool-cases (same_text i j)) [
  | inl e ↦ let found = rw e at h in cc
  | inr e ↦
      let rest = lookup-remove j k m (rw e at h) in
      if_both (λ (t : Table ℕ). lookup j t ≡ none) (same_text i k) _ _ rest (rw e rest)
]

remove-IsMap : (k : List ℕ) (m : Table ℕ) → IsMap m → IsMap (remove k m)
unfolding remove
remove-IsMap k [] u = tt
remove-IsMap k ((j, w) ∷ m) u =
    if_both IsMap (same_text j k) _ _ (remove-IsMap k m u.1)
      (lookup-remove j k m u.0, remove-IsMap k m u.1)

remove-All : (P : (List ℕ × ℕ) → Type 0) (k : List ℕ) (m : Table ℕ) → All P m → All P (remove k m)
unfolding remove
remove-All P k [] h = tt
remove-All P k ((j, w) ∷ m) h =
    if_both (All P) (same_text j k) _ _ (remove-All P k m h.1) (h.0, remove-All P k m h.1)

prune-All :
    (P : (List ℕ × ℕ) → Type 0) (fuel : ℕ) (store : List JobData) (max : ℕ) (jobs : Table ℕ)
    → All P jobs
    → All P (prune_loop fuel store max jobs)
unfolding prune_loop
prune-All P zero store max jobs h = h
prune-All P (suc fuel) store max [] h = tt
prune-All P (suc fuel) store max (entry ∷ jobs) h =
    if_both (All P) (ltb max (length (entry ∷ jobs))) _ _
      (prune-All P fuel store max _ (remove-All P _ (entry ∷ jobs) h)) h

-- The entry that is found is at most as new as those looked through.
oldest-le :
    (store : List JobData) (best : List ℕ × ℕ) (jobs : Table ℕ)
    → (age store (oldest store best jobs) ≤ age store best)
      × All (λ x. age store (oldest store best jobs) ≤ age store x) jobs
unfolding oldest
oldest-le store best [] = (omega arith, tt)
oldest-le store best (entry ∷ jobs) =
    if_cases
      (λ (picked : List ℕ × ℕ).
        (age store (oldest store picked jobs) ≤ age store best)
        × ((age store (oldest store picked jobs) ≤ age store entry)
            × All (λ x. age store (oldest store picked jobs) ≤ age store x) jobs))
      (ltb (age store entry) (age store best)) entry best
      (λ e.
        let newer : age store entry < age store best = ground arith in
        let ih = oldest-le store entry jobs in (omega (arith, ih.0), (ih.0, ih.1)))
      (λ e.
        let older : age store best ≤ age store entry = ground arith in
        let ih = oldest-le store best jobs in (ih.0, (omega (arith, ih.0), ih.1)))

oldest-In :
    (store : List JobData) (best : List ℕ × ℕ) (jobs : Table ℕ)
    → In (oldest store best jobs) (best ∷ jobs)
unfolding oldest
oldest-In store best [] = inl refl
oldest-In store best (entry ∷ jobs) =
    if_both (λ (picked : List ℕ × ℕ). In (oldest store picked jobs) (best ∷ entry ∷ jobs)) _ entry
      best (inr (oldest-In store entry jobs))
      (elim (oldest-In store best jobs) [ inl same ↦ inl same | inr rest ↦ inr (inr rest) ])

lookup-In : (x : List ℕ × ℕ) (m : Table ℕ) → IsMap m → In x m → lookup (x.0) m ≡ some (x.1)
unfolding lookup
lookup-In x [] u h = elim h [ ]
lookup-In x ((j, w) ∷ m) u (inl e) = rw (e, same_text_self j) refl
lookup-In x ((j, w) ∷ m) u (inr h) = elim (Bool-cases (same_text j (x.0))) [
  | inl e ↦
      let same = same_text_eq j (x.0) e in
      let found = lookup-In x m u.1 h in let missing = rw same at (u.0) in cc
  | inr e ↦ rw e (lookup-In x m u.1 h)
]

In-remove :
    (x : List ℕ × ℕ) (k : List ℕ) (m : Table ℕ)
    → same_text (x.0) k ≡ false
    → In x m
    → In x (remove k m)
unfolding remove
In-remove x k [] ne h = elim h [ ]
In-remove x k ((j, w) ∷ m) ne (inl e) =
    let other : same_text j k ≡ false = rw e at ne in rw other (inl e)
In-remove x k ((j, w) ∷ m) ne (inr h) =
    if_both (In x) (same_text j k) _ _ (In-remove x k m ne h) (inr (In-remove x k m ne h))

All-In : (P : (List ℕ × ℕ) → Type 0) (x : List ℕ × ℕ) (m : Table ℕ) → All P m → In x m → P x
All-In P x [] h i = elim i [ ]
All-In P x (y ∷ m) h (inl e) = rw e (h.0)
All-In P x (y ∷ m) h (inr i) = All-In P x m h.1 i

In-All : (P : (List ℕ × ℕ) → Type 0) (m : Table ℕ) → ((x : List ℕ × ℕ) → In x m → P x) → All P m
In-All P [] h = tt
In-All P (y ∷ m) h = (h y (inl refl), In-All P m (λ x i. h x (inr i)))

-- An entry is kept, or at most as new as all that are kept.
abbrev pub IsOldOrKept : List JobData → Table ℕ → (List ℕ × ℕ) → Type 0
IsOldOrKept store kept x = In x kept ⊎ All (λ y. age store x ≤ age store y) kept

-- One turn of the loop, with what the rest of it keeps.
removed_is_oldest :
    (fuel : ℕ) (store : List JobData) (max : ℕ) (entry : List ℕ × ℕ) (jobs : Table ℕ)
    → IsMap (entry ∷ jobs)
    → (kept : Table ℕ)
    → kept ≡ prune_loop fuel store max (remove ((oldest store entry jobs).0) (entry ∷ jobs))
    → All (IsOldOrKept store kept) (remove ((oldest store entry jobs).0) (entry ∷ jobs))
    → All (IsOldOrKept store kept) (entry ∷ jobs)
removed_is_oldest fuel store max entry jobs u kept kept_is ih =
    let o = oldest store entry jobs in
    let all_newer =
      remove-All (λ y. age store o ≤ age store y) (o.0) (entry ∷ jobs)
        (oldest-le store entry jobs) in
    In-All (IsOldOrKept store kept) (entry ∷ jobs) (λ x i.
      elim (Bool-cases (same_text (x.0) (o.0))) [
        | inl e ↦
            let same = same_text_eq (x.0) (o.0) e in
            let mine = rw same at (lookup-In x (entry ∷ jobs) u i) in
            let its = lookup-In o (entry ∷ jobs) u (oldest-In store entry jobs) in
            let ref_is : x.1 ≡ o.1 = cc in
            inr (
              rw (kept_is, ref_is)
                (prune-All (λ y. age store o ≤ age store y) fuel store max _ all_newer))
        | inr e ↦ All-In (IsOldOrKept store kept) x _ ih (In-remove x (o.0) (entry ∷ jobs) e i)
      ])

prune_loop-newest :
    (fuel : ℕ) (store : List JobData) (max : ℕ) (jobs : Table ℕ)
    → length jobs ≤ fuel
    → IsMap jobs
    → (length (prune_loop fuel store max jobs) ≡ min max (length jobs))
      × All (IsOldOrKept store (prune_loop fuel store max jobs)) jobs
unfolding prune_loop
prune_loop-newest zero store max [] h u = (omega arith, tt)
prune_loop-newest zero store max (entry ∷ jobs) h u = elim h [ ]
prune_loop-newest (suc fuel) store max [] h u = (omega arith, tt)
prune_loop-newest (suc fuel) store max (entry ∷ jobs) h u =
    let o = oldest store entry jobs in
    let r = remove (o.0) (entry ∷ jobs) in
    let one = length-remove (o.0) (entry ∷ jobs) u (oldest-HasKey store entry jobs) in
    let ih =
      prune_loop-newest fuel store max r (omega arith) (remove-IsMap (o.0) (entry ∷ jobs) u) in
    if_cases
      (λ (kept : Table ℕ).
        (length kept ≡ min max (length (entry ∷ jobs)))
        × All (IsOldOrKept store kept) (entry ∷ jobs))
      (ltb max (length (entry ∷ jobs))) (prune_loop fuel store max r) (entry ∷ jobs)
      (λ e.
        let over : max < length (entry ∷ jobs) = ground arith in
        (
          omega (arith, ih.0, one),
          removed_is_oldest fuel store max entry jobs u (prune_loop fuel store max r) refl ih.1,
        ))
      (λ e.
        let fits : length (entry ∷ jobs) ≤ max = ground arith in
        (omega arith, In-All (IsOldOrKept store (entry ∷ jobs)) (entry ∷ jobs) (λ x i. inl i)))

-- On a map, pruning keeps as many jobs as the history may have, or all where there are not more;
-- they are jobs of the map, and every other one is at most as new as each of them.
pub prune_jobs-newest :
    (store : List JobData) (max : ℕ) (jobs : Table ℕ)
    → IsMap jobs
    → (length (prune_jobs store max jobs) ≡ min max (length jobs))
      × All (λ x. In x jobs) (prune_jobs store max jobs)
      × All (IsOldOrKept store (prune_jobs store max jobs)) jobs
unfolding prune_jobs
prune_jobs-newest store max jobs u =
    let loop = prune_loop-newest (length jobs) store max jobs (omega arith) u in
    (
      loop.0,
      prune-All (λ x. In x jobs) (length jobs) store max jobs
          (In-All (λ x. In x jobs) jobs (λ x i. i)),
      loop.1,
    )
