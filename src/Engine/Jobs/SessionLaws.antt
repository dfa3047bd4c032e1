-- ===== src/Engine/Jobs/SessionLaws.antt =====
-- pkg/engine/jobmanager.go: the sessions of an address.
use forgenx_engine.Prelude.{
  ℕ, ◌+◌, ◌-◌, ◌≡◌, refl, ap, ◌∙◌, true, false, List, [], ◌∷◌, Option, none, some, leb, ◌==◌, arith,
  if◌then◌else◌, if_both, Bool-cases, inl, inr,
}
use mathlib.Core.Option
use forgenx_engine.Prelude.Table.{
  Table, lookup, same_text_eq, lookup-put_self, lookup-put_other, lookup-remove_self,
  lookup-remove_other,
}
use forgenx_engine.Prelude.Float.{Floats}
use forgenx_engine.Coin.Text.{same_text}
use forgenx_engine.Coin.Interface.{Coin}
use forgenx_engine.Engine.Jobs.{JobManager}
use forgenx_engine.Engine.Jobs.Sessions.{
  count_of, drop_session, count_session, register_address, unregister_address,
}

module _ (fl : Floats) (coin : Coin) where
  -- A session that sets its payout address, or one that ends.
  pub data SessionEvent : Type 0 where
    join : List ℕ → SessionEvent
    leave : List ℕ → SessionEvent

  unfoldable pub sessions_of : List ℕ → JobManager fl → ℕ
  sessions_of address jm = count_of (lookup address jm.connected_addrs)

  -- `none` is a panic on the way.
  unfoldable pub run_sessions : List SessionEvent → JobManager fl → Option (JobManager fl)
  run_sessions [] jm = some jm
  run_sessions (join a ∷ events) jm =
      Option.bind (register_address fl coin a jm) (λ jm'. run_sessions events jm')
  run_sessions (leave a ∷ events) jm = run_sessions events (unregister_address fl coin a jm)

  abbrev pub sessions? : List ℕ → Option (JobManager fl) → Option ℕ
  sessions? address none = none
  sessions? address (some jm) = some (sessions_of address jm)

  -- The sessions by counting the events of an address alone.
  unfoldable pub tally : List ℕ → List SessionEvent → ℕ → ℕ
  tally address [] n = n
  tally address (join a ∷ events) n =
      tally address events (if same_text a address then n + 1 else n)
  tally address (leave a ∷ events) n =
      tally address events (if same_text a address then n - 1 else n)

  count-same :
      (a : List ℕ) (jm : JobManager fl)
      → sessions_of a (count_session fl coin a jm) ≡ sessions_of a jm + 1
  unfolding sessions_of count_session
  count-same a jm = elim (Bool-cases (count_of (lookup a jm.connected_addrs) + 1 == 1)) [
    | inl e ↦ rw e (ap count_of (lookup-put_self a _ jm.connected_addrs))
    | inr e ↦ rw e (ap count_of (lookup-put_self a _ jm.connected_addrs))
  ]

  count-other :
      (a b : List ℕ) (jm : JobManager fl)
      → same_text a b ≡ false
      → sessions_of b (count_session fl coin a jm) ≡ sessions_of b jm
  unfolding sessions_of count_session
  count-other a b jm h = elim (Bool-cases (count_of (lookup a jm.connected_addrs) + 1 == 1)) [
    | inl e ↦ rw e (ap count_of (lookup-put_other a b _ jm.connected_addrs h))
    | inr e ↦ rw e (ap count_of (lookup-put_other a b _ jm.connected_addrs h))
  ]

  drop_session-same :
      (a : List ℕ) (o : Option ℕ) (addrs : Table ℕ)
      → lookup a addrs ≡ o
      → count_of (lookup a (drop_session fl coin a o addrs)) ≡ count_of o - 1
  drop_session-same a none addrs h = ap count_of h
  drop_session-same a (some n) addrs h = elim (Bool-cases (leb n 1)) [
    | inl e ↦ let one : n - 1 ≡ 0 = ground arith in rw (e, lookup-remove_self a addrs, one) refl
    | inr e ↦ rw e (ap count_of (lookup-put_self a (n - 1) addrs))
  ]

  drop_session-other :
      (a b : List ℕ) (o : Option ℕ) (addrs : Table ℕ)
      → same_text a b ≡ false
      → lookup b (drop_session fl coin a o addrs) ≡ lookup b addrs
  drop_session-other a b none addrs h = refl
  drop_session-other a b (some n) addrs h =
      if_both (λ (m : Table ℕ). lookup b m ≡ lookup b addrs) (leb n 1) _ _
        (lookup-remove_other a b addrs h) (lookup-put_other a b (n - 1) addrs h)

  unregister-same :
      (c : ℕ) (a : List ℕ) (jm : JobManager fl)
      → sessions_of (c ∷ a) (unregister_address fl coin (c ∷ a) jm) ≡ sessions_of (c ∷ a) jm - 1
  unfolding sessions_of unregister_address
  unregister-same c a jm =
      drop_session-same (c ∷ a) (lookup (c ∷ a) jm.connected_addrs) jm.connected_addrs refl

  unregister-other :
      (a b : List ℕ) (jm : JobManager fl)
      → same_text a b ≡ false
      → sessions_of b (unregister_address fl coin a jm) ≡ sessions_of b jm
  unfolding sessions_of unregister_address
  unregister-other [] b jm h = refl
  unregister-other (c ∷ a) b jm h =
      ap count_of
        (drop_session-other (c ∷ a) b (lookup (c ∷ a) jm.connected_addrs) jm.connected_addrs h)

  count-step :
      (a : List ℕ) (c : ℕ) (k : List ℕ) (jm : JobManager fl)
      → sessions_of (c ∷ k) (count_session fl coin a jm)
        ≡ (if same_text a (c ∷ k) then sessions_of (c ∷ k) jm + 1 else sessions_of (c ∷ k) jm)
  count-step a c k jm = elim (Bool-cases (same_text a (c ∷ k))) [
    | inl e ↦
        let same : a ≡ c ∷ k = same_text_eq a (c ∷ k) e in rw (e, same) (count-same (c ∷ k) jm)
    | inr e ↦ rw e (count-other a (c ∷ k) jm e)
  ]

  unregister-step :
      (a : List ℕ) (c : ℕ) (k : List ℕ) (jm : JobManager fl)
      → sessions_of (c ∷ k) (unregister_address fl coin a jm)
        ≡ (if same_text a (c ∷ k) then sessions_of (c ∷ k) jm - 1 else sessions_of (c ∷ k) jm)
  unregister-step a c k jm = elim (Bool-cases (same_text a (c ∷ k))) [
    | inl e ↦
        let same : a ≡ c ∷ k = same_text_eq a (c ∷ k) e in rw (e, same) (unregister-same c k jm)
    | inr e ↦ rw e (unregister-other a (c ∷ k) jm e)
  ]

  count_session-solo :
      (a : List ℕ) (jm : JobManager fl) → (count_session fl coin a jm).solo_mode ≡ jm.solo_mode
  unfolding count_session
  count_session-solo a jm =
      if_both (λ (m : JobManager fl). m.solo_mode ≡ jm.solo_mode)
        (count_of (lookup a jm.connected_addrs) + 1 == 1) _ _ refl refl

  register_address-solo :
      (a : List ℕ) (jm : JobManager fl)
      → jm.solo_mode ≡ true
      → register_address fl coin a jm ≡ some (count_session fl coin a jm)
  unfolding register_address
  register_address-solo a jm solo =
      ap (λ b. if b then some (count_session fl coin a jm) else none) solo

  unregister-solo :
      (a : List ℕ) (jm : JobManager fl) → (unregister_address fl coin a jm).solo_mode ≡ jm.solo_mode
  unfolding unregister_address
  unregister-solo a jm =
      if_both (λ (m : JobManager fl). m.solo_mode ≡ jm.solo_mode) (same_text a []) _ _ refl refl

  -- In solo mode sessions join and leave without a panic, and the manager has then for a payout
  -- address the number of sessions that counting the events of this address alone gives; a leave
  -- beyond the joins changes nothing.
  pub sessions_of-run_sessions :
      (events : List SessionEvent) (c : ℕ) (k : List ℕ) (jm : JobManager fl)
      → jm.solo_mode ≡ true
      → sessions? (c ∷ k) (run_sessions events jm)
        ≡ some (tally (c ∷ k) events (sessions_of (c ∷ k) jm))
  unfolding run_sessions tally Option.bind
  sessions_of-run_sessions [] c k jm solo = refl
  sessions_of-run_sessions (join a ∷ events) c k jm solo =
      let next = count_session fl coin a jm in
      rw (register_address-solo a jm solo) (
        sessions_of-run_sessions events c k next (count_session-solo a jm ∙ solo)
        ∙ ap (λ n. some (tally (c ∷ k) events n)) (count-step a c k jm))
  sessions_of-run_sessions (leave a ∷ events) c k jm solo =
      let next = unregister_address fl coin a jm in
      sessions_of-run_sessions events c k next (unregister-solo a jm ∙ solo)
      ∙ ap (λ n. some (tally (c ∷ k) events n)) (unregister-step a c k jm)
