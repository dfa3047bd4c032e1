-- ===== src/Sv2/AccountingLaws.antt =====
-- pkg/stratumv2/channel.go: the acknowledgements of RecordShare.
use forgenx_engine.Prelude.{
  ℕ, ◌+◌, ◌<◌, ◌≡◌, refl, ◌∙◌, true, false, List, [], ◌∷◌, Option, none, some, ltb, arith, if_both,
}
use forgenx_engine.Prelude.Bytes.{u64}
use forgenx_engine.Prelude.Float.{Floats}
use forgenx_engine.Stratum.VarDiff.{VarDiff, VarDiffResult}
use forgenx_engine.Sv2.Channel.{Channel}
use forgenx_engine.Sv2.Accounting.{
  update_best, update_best_ratio, ack_count, check_vardiff, record_share, record_rejection,
}

module _ (fl : Floats) where
  -- What a miner's submissions do to its channel: a share is accepted, or refused.
  pub data Event : Type 0 where
    accept : (now seq_num : ℕ) (diff network_diff : fl.F) (height : ℕ) → Event
    refuse : Event

  -- The counts of the acknowledgements, added up.
  unfoldable pub acknowledged : List Event → Channel fl → ℕ
  acknowledged [] c = 0
  acknowledged (accept now seq_num diff network_diff height ∷ events) c =
      let (ack, c') = record_share fl now seq_num diff network_diff height c in
      ack.accepted + acknowledged events c'
  acknowledged (refuse ∷ events) c = acknowledged events (record_rejection fl c)

  -- The sequence numbers of the accepted shares increase from `seq` on, and end with `last`.
  abbrev pub Increasing : ℕ → ℕ → List Event → Type 0
  Increasing seq last [] = seq ≡ last
  Increasing seq last (accept now s diff network_diff height ∷ events) =
      (seq < s) × Increasing s last events
  Increasing seq last (refuse ∷ events) = Increasing seq last events

  abbrev SameAcks : Channel fl → Channel fl → Type 0
  SameAcks c c' = (c'.have_acked ≡ c.have_acked) × (c'.last_acked_seq ≡ c.last_acked_seq)

  update_best-SameAcks :
      (now : ℕ) (d n : fl.F) (height : ℕ) (c : Channel fl)
      → SameAcks c (update_best fl now d n height c)
  unfolding update_best
  update_best-SameAcks now d n height c = if_both (SameAcks c) _ _ _ (refl, refl) (refl, refl)

  update_best_ratio-SameAcks :
      (now : ℕ) (d n : fl.F) (height : ℕ) (c : Channel fl)
      → SameAcks c (update_best_ratio fl now d n height c)
  unfolding update_best_ratio
  update_best_ratio-SameAcks now d n height c = if_both (SameAcks c) _ _ _ (refl, refl) (refl, refl)

  check_vardiff-SameAcks :
      (now : ℕ) (vd : Option (VarDiff fl)) (c : Channel fl)
      → SameAcks c ((check_vardiff fl now vd c).1)
  unfolding check_vardiff
  check_vardiff-SameAcks now none c = (refl, refl)
  check_vardiff-SameAcks now (some vd) c =
      if_both (λ (out : VarDiffResult fl × Channel fl). SameAcks c (out.1)) _ _ _ (refl, refl)
        (if_both (SameAcks c) _ _ _ (refl, refl) (refl, refl))

  ack_count-same :
      (seq : ℕ) (c c' : Channel fl) → SameAcks c c' → ack_count fl seq c' ≡ ack_count fl seq c
  unfolding ack_count
  ack_count-same seq c c' (have, last) = rw (have, last) refl

  record_share-acks :
      (now seq : ℕ) (d n : fl.F) (height : ℕ) (c : Channel fl)
      → (((record_share fl now seq d n height c).0).accepted ≡ ack_count fl seq c)
        × (((record_share fl now seq d n height c).1).have_acked ≡ true)
        × (((record_share fl now seq d n height c).1).last_acked_seq ≡ seq)
  unfolding record_share
  record_share-acks now seq d n height c =
      let best =
        update_best-SameAcks now d n height
          (record c { shares_accepted = u64 (c.shares_accepted + 1) }) in
      let ratio = update_best_ratio-SameAcks now d n height (
        update_best fl now d n height
          (record c { shares_accepted = u64 (c.shares_accepted + 1) })) in
      (
        ack_count-same seq c _ (ratio.0 ∙ best.0, ratio.1 ∙ best.1),
        (check_vardiff-SameAcks now _ _).0,
        (check_vardiff-SameAcks now _ _).1,
      )

  ack_count-increasing :
      (s : ℕ) (c : Channel fl)
      → c.have_acked ≡ true
      → c.last_acked_seq < s
      → ack_count fl s c + c.last_acked_seq ≡ s
  unfolding ack_count
  ack_count-increasing s c have lt =
      let newer : ltb c.last_acked_seq s ≡ true = ground arith in rw (have, newer) (omega arith)

  ack_count-first : (s : ℕ) (c : Channel fl) → c.have_acked ≡ false → ack_count fl s c ≡ 1
  unfolding ack_count
  ack_count-first s c fresh = rw fresh refl

  -- From a share acknowledged at `seq` on.
  acknowledged_from :
      (events : List Event) (seq last : ℕ) (c : Channel fl)
      → c.have_acked ≡ true
      → c.last_acked_seq ≡ seq
      → Increasing seq last events
      → acknowledged events c + seq ≡ last
  unfolding acknowledged record_rejection
  acknowledged_from [] seq last c have at inc = omega arith
  acknowledged_from (accept now s d n height ∷ events) seq last c have at inc =
      let c' = (record_share fl now s d n height c).1 in
      let (count, have', at') = record_share-acks now s d n height c in
      let rest = acknowledged_from events s last c' have' at' inc.1 in
      let one = ack_count-increasing s c have (omega arith) in omega (arith, count, rest, one)
  acknowledged_from (refuse ∷ events) seq last c have at inc =
      acknowledged_from events seq last _ have at inc

  -- On a channel that has acknowledged nothing, a first accepted share and then shares with
  -- increasing sequence numbers are acknowledged as many as there are numbers from the first to the
  -- last of them, each number in between counted, also that of a share that was refused.
  pub acknowledged_total :
      (events : List Event) (now seq last height : ℕ) (d n : fl.F) (c : Channel fl)
      → c.have_acked ≡ false
      → Increasing seq last events
      → acknowledged (accept now seq d n height ∷ events) c + seq ≡ last + 1
  unfolding acknowledged
  acknowledged_total events now seq last height d n c fresh inc =
      let c' = (record_share fl now seq d n height c).1 in
      let (count, have', at') = record_share-acks now seq d n height c in
      let rest = acknowledged_from events seq last c' have' at' inc in
      let one = ack_count-first seq c fresh in omega (arith, count, rest, one)
