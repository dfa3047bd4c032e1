-- ===== src/Engine/Shares/EffectLaws.antt =====
-- pkg/engine/sharevalidator.go: lists of effects, and which of them submit a block.
use forgenx_engine.Prelude.{
  ◌≡◌, List, [], ◌∷◌, ◌++◌, Bool, true, false, not, ◌&&◌, ◌⊎◌, inl, inr, Bool-cases,
}
use forgenx_engine.Prelude.Float.{Floats}
use forgenx_engine.Engine.Shares.Submit.{Effect, submitted}

module _ (fl : Floats) where
  abbrev is_submission : Effect fl → Bool
  is_submission (submitted block_hex) = true
  is_submission effect = false

  -- No effect of a list submits a block.
  abbrev pub submits_nothing : List (Effect fl) → Bool
  submits_nothing [] = true
  submits_nothing (effect ∷ effects) = not (is_submission effect) && submits_nothing effects

  abbrev pub Contains : Effect fl → List (Effect fl) → Type 0
  Contains effect [] = ⊥
  Contains effect (x ∷ effects) = (x ≡ effect) ⊎ Contains effect effects

  pub Contains-append :
      (effect : Effect fl) (xs ys : List (Effect fl))
      → Contains effect xs
      → Contains effect (xs ++ ys)
  Contains-append effect [] ys h = elim h [ ]
  Contains-append effect (x ∷ xs) ys (inl e) = inl e
  Contains-append effect (x ∷ xs) ys (inr h) = inr (Contains-append effect xs ys h)

  pub submits_nothing-append :
      (xs ys : List (Effect fl))
      → submits_nothing xs ≡ true
      → submits_nothing ys ≡ true
      → submits_nothing (xs ++ ys) ≡ true
  submits_nothing-append [] ys h k = k
  submits_nothing-append (x ∷ xs) ys h k = elim (Bool-cases (is_submission x)) [
    | inl e ↦ let bad : false ≡ true = rw e at h in cc
    | inr e ↦ rw e (submits_nothing-append xs ys (rw e at h) k)
  ]
