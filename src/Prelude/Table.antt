-- ===== src/Prelude/Table.antt =====
-- A Go map with text keys, as the list of its entries, and the equality of texts.
use forgenx_engine.Prelude.{
  ℕ, suc, ◌≤◌, ◌≡◌, refl, true, false, Option, none, some, List, [], ◌∷◌, arith, if◌then◌else◌,
  length, Bool-cases, inl, inr,
}
use forgenx_engine.Coin.Text.{same_text}

pub same_text_self : (a : List ℕ) → same_text a a ≡ true
same_text_self [] = refl
same_text_self (c ∷ a) = rw (same_text_self a) (ground arith)

pub same_text_eq : (a b : List ℕ) → same_text a b ≡ true → a ≡ b
same_text_eq [] [] h = refl
same_text_eq [] (d ∷ b) h = cc
same_text_eq (c ∷ a) [] h = cc
same_text_eq (c ∷ a) (d ∷ b) h = ground (arith, same_text_eq a b)

abbrev pub Table {ℓ} : Type ℓ → Type ℓ
Table V = List (List ℕ × V)

module _ {ℓ} {V : Type ℓ} where
  -- `m[k]`; `none` where the key is missing.
  unfoldable pub lookup : List ℕ → Table V → Option V
  lookup k [] = none
  lookup k ((j, v) ∷ m) = if same_text j k then some v else lookup k m

  -- `m[k] = v`.
  unfoldable pub put : List ℕ → V → Table V → Table V
  put k v [] = (k, v) ∷ []
  put k v ((j, w) ∷ m) = let rest = put k v m in if same_text j k then (j, v) ∷ m else (j, w) ∷ rest

  -- `delete(m, k)`.
  unfoldable pub remove : List ℕ → Table V → Table V
  remove k [] = []
  remove k ((j, w) ∷ m) = let rest = remove k m in if same_text j k then rest else (j, w) ∷ rest

  pub lookup-put_self : (k : List ℕ) (v : V) (m : Table V) → lookup k (put k v m) ≡ some v
  unfolding lookup put
  lookup-put_self k v [] = rw (same_text_self k)
  lookup-put_self k v ((j, w) ∷ m) = elim (Bool-cases (same_text j k)) [
    | inl e ↦ rw (e, e)
    | inr e ↦ rw (e, e) (lookup-put_self k v m)
  ]

  pub lookup-put_other :
      (k l : List ℕ) (v : V) (m : Table V)
      → same_text k l ≡ false
      → lookup l (put k v m) ≡ lookup l m
  unfolding lookup put
  lookup-put_other k l v [] h = rw h
  lookup-put_other k l v ((j, w) ∷ m) h = elim (Bool-cases (same_text j k)) [
    | inl e ↦ let e' : j ≡ k = same_text_eq j k e in rw (e, e', h)
    | inr e ↦ rw (e, lookup-put_other k l v m h)
  ]

  pub lookup-remove_self : (k : List ℕ) (m : Table V) → lookup k (remove k m) ≡ none
  unfolding lookup remove
  lookup-remove_self k [] = refl
  lookup-remove_self k ((j, w) ∷ m) = elim (Bool-cases (same_text j k)) [
    | inl e ↦ rw e (lookup-remove_self k m)
    | inr e ↦ rw (e, e) (lookup-remove_self k m)
  ]

  pub lookup-remove_other :
      (k l : List ℕ) (m : Table V) → same_text k l ≡ false → lookup l (remove k m) ≡ lookup l m
  unfolding lookup remove
  lookup-remove_other k l [] h = refl
  lookup-remove_other k l ((j, w) ∷ m) h = elim (Bool-cases (same_text j k)) [
    | inl e ↦ let e' : j ≡ k = same_text_eq j k e in rw (e, e', h) (lookup-remove_other k l m h)
    | inr e ↦ rw (e, lookup-remove_other k l m h)
  ]

  pub length-put : (k : List ℕ) (v : V) (m : Table V) → length (put k v m) ≤ suc (length m)
  unfolding put
  length-put k v [] = omega arith
  length-put k v ((j, w) ∷ m) = elim (Bool-cases (same_text j k)) [
    | inl e ↦ rw e (omega arith)
    | inr e ↦ rw e (omega (arith, length-put k v m))
  ]
