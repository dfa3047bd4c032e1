-- ===== src/Sv2/ChannelLaws.antt =====
-- pkg/stratumv2/channel.go: the jobs that a channel accepts, and the extranonces of channels.
use forgenx_engine.Prelude.{
  ℕ, zero, suc, ◌+◌, ◌-◌, ◌%◌, ◌^◌, ◌<◌, ◌≡◌, ◌≢◌, refl, sym, ap, ◌∙◌, Bool, true, false, ◌||◌,
  if◌then◌else◌, List, [], ◌∷◌, ◌++◌, ◌==◌, take, arith,
}
use forgenx_engine.Prelude.Bytes.{from_le, from_le-le32, zeros}
use forgenx_engine.Prelude.Float.{Floats}
use forgenx_engine.Sv2.Channel.{
  Counters, allocate, Channel, set_current_job, is_job_valid, any_stale,
}

-- The server's counters after a number of allocations.
unfoldable pub after_allocations : ℕ → Counters → Counters
after_allocations zero c = c
after_allocations (suc n) c = after_allocations n ((allocate c).1)

after_allocations_lem :
    (n : ℕ) (c : Counters)
    → c.extranonce_counter < 2 ^ 32
    → (after_allocations n c).extranonce_counter ≡ (c.extranonce_counter + n) % 2 ^ 32
unfolding after_allocations allocate
after_allocations_lem zero c h = omega arith
after_allocations_lem (suc n) c h =
    omega (arith, after_allocations_lem n ((allocate c).1) (omega arith))

-- Two channels of the server have different extranonces, unless 2^32 or more channels were opened
-- from the one to the other.
pub allocate-distinct :
    (i j : ℕ) (c : Counters)
    → c.extranonce_counter < 2 ^ 32
    → i < j
    → j - i < 2 ^ 32
    → (allocate (after_allocations i c)).0 ≢ (allocate (after_allocations j c)).0
unfolding allocate
allocate-distinct i j c h lt near e =
    let a = after_allocations_lem i c h in
    let b = after_allocations_lem j c h in
    let same : (after_allocations i c).extranonce_counter
        ≡ (after_allocations j c).extranonce_counter =
      sym (from_le-le32 _ (omega arith)) ∙ ap from_le e ∙ from_le-le32 _ (omega arith) in
    omega arith

abbrev pub member : ℕ → List ℕ → Bool
member j [] = false
member j (x ∷ l) = (j == x) || member j l

take-take : (xs : List ℕ) → take 8 (take 9 xs) ≡ take 8 xs
take-take xs = take-take_suc 8 xs
  where
    take-take_suc : (n : ℕ) (xs : List ℕ) → take n (take (suc n) xs) ≡ take n xs
    take-take_suc zero xs = refl
    take-take_suc (suc n) [] = refl
    take-take_suc (suc n) (x ∷ xs) = ap (λ l. x ∷ l) (take-take_suc n xs)

any_stale-member : (j : ℕ) (ids : List ℕ) → j ≢ 0 → any_stale j ids ≡ member j ids
unfolding any_stale
any_stale-member j [] h = refl
any_stale-member j (x ∷ ids) h = ground (arith, any_stale-member j ids h)

not_in_zeros : (j n m : ℕ) → j ≢ 0 → member j (take n (zeros m)) ≡ false
not_in_zeros j zero m ne = refl
not_in_zeros j (suc n) zero ne = refl
not_in_zeros j (suc n) (suc m) ne = ground (arith, not_in_zeros j n m ne)

member-zeros :
    (j n m : ℕ) (h : List ℕ) → j ≢ 0 → member j (take n (h ++ zeros m)) ≡ member j (take n h)
member-zeros j zero m h ne = refl
member-zeros j (suc n) zero [] ne = refl
member-zeros j (suc n) (suc m) [] ne = ground (arith, not_in_zeros j n m ne)
member-zeros j (suc n) m (x ∷ h) ne = ap (λ b. (j == x) || b) (member-zeros j n m h ne)

no_stale_zero : (b : Bool) (ids : List ℕ) → (b || any_stale 0 ids) ≡ b
unfolding any_stale
no_stale_zero true ids = refl
no_stale_zero false [] = refl
no_stale_zero false (x ∷ ids) = let rest = no_stale_zero false ids in ground arith

-- The last element, and `d` where there is none.
abbrev pub last_or : ℕ → List ℕ → ℕ
last_or d [] = d
last_or d (id ∷ ids) = last_or id ids

module _ (fl : Floats) where
  -- The identifiers, the oldest first, that SetCurrentJob is called with.
  unfoldable pub set_jobs : List ℕ → Channel fl → Channel fl
  set_jobs [] c = c
  set_jobs (id ∷ ids) c = set_jobs ids (set_current_job fl id c)

  abbrev pub newest_first : List ℕ → List ℕ → List ℕ
  newest_first [] sent = sent
  newest_first (id ∷ ids) sent = newest_first ids (id ∷ sent)

  abbrev HasSent : List ℕ → Channel fl → Type 0
  HasSent sent c = c.current_job_id ∷ c.stale_job_ids ≡ take 9 (sent ++ zeros 9)

  set_current_job-HasSent :
      (id : ℕ) (sent : List ℕ) (c : Channel fl)
      → HasSent sent c
      → HasSent (id ∷ sent) (set_current_job fl id c)
  unfolding set_current_job
  set_current_job-HasSent id sent c h =
      ap (λ (l : List ℕ). id ∷ l) (ap (take 8) h ∙ take-take (sent ++ zeros 9))

  set_jobs-HasSent :
      (ids sent : List ℕ) (c : Channel fl)
      → HasSent sent c
      → HasSent (newest_first ids sent) (set_jobs ids c)
  unfolding set_jobs
  set_jobs-HasSent [] sent c h = h
  set_jobs-HasSent (id ∷ ids) sent c h =
      set_jobs-HasSent ids (id ∷ sent) (set_current_job fl id c)
        (set_current_job-HasSent id sent c h)

  is_job_valid-member :
      (j : ℕ) (c : Channel fl)
      → j ≢ 0
      → is_job_valid fl j c ≡ member j (c.current_job_id ∷ c.stale_job_ids)
  unfolding is_job_valid
  is_job_valid-member j c ne =
      ap (λ b. (j == c.current_job_id) || b) (any_stale-member j c.stale_job_ids ne)

  current-set_jobs :
      (ids : List ℕ) (c : Channel fl)
      → (set_jobs ids c).current_job_id ≡ last_or c.current_job_id ids
  unfolding set_jobs set_current_job
  current-set_jobs [] c = refl
  current-set_jobs (id ∷ ids) c = current-set_jobs ids (set_current_job fl id c)

  is_job_valid-zero : (c : Channel fl) → is_job_valid fl 0 c ≡ (0 == c.current_job_id)
  unfolding is_job_valid
  is_job_valid-zero c = no_stale_zero (0 == c.current_job_id) c.stale_job_ids

  -- A channel that has not been sent a job yet, and was then sent the jobs `ids`, accepts a share
  -- for a job other than 0 exactly if it is one of the last nine of them, the current job and the
  -- eight before it; for job 0, exactly if the last of them is 0 or there are none.
  pub is_job_valid-set_jobs :
      (ids : List ℕ) (j : ℕ) (c : Channel fl)
      → c.current_job_id ≡ 0
      → c.stale_job_ids ≡ zeros 8
      → is_job_valid fl j (set_jobs ids c)
        ≡ (if j == 0 then 0 == last_or 0 ids else member j (take 9 (newest_first ids [])))
  is_job_valid-set_jobs ids zero c current stale =
      is_job_valid-zero (set_jobs ids c)
      ∙ ap (λ i. 0 == i) (current-set_jobs ids c ∙ ap (λ d. last_or d ids) current)
  is_job_valid-set_jobs ids (suc j) c current stale =
      let ne : suc j ≢ 0 = omega arith in
      let off : (suc j == 0) ≡ false = ground arith in
      rw off (
        is_job_valid-member (suc j) (set_jobs ids c) ne
        ∙ ap (member (suc j)) (set_jobs-HasSent ids [] c (rw (current, stale) refl))
        ∙ member-zeros (suc j) 9 9 (newest_first ids []) ne)
