-- ===== src/Coin/Text.antt =====
-- Texts that pkg/coin reads, as lists of ASCII bytes: what it uses of `strings` and of indexing.
-- An input with other characters is outside the model.
use forgenx_engine.Prelude.{
  ℕ, suc, ◌+◌, ◌-◌, List, [], ◌∷◌, Bool, true, false, ◌&&◌, leb, ◌==◌, if◌then◌else◌, Option, none,
  some, map,
}

unfoldable pub lower_char : ℕ → ℕ
lower_char c = if leb b'A' c && leb c b'Z' then c + 32 else c

unfoldable pub upper_char : ℕ → ℕ
upper_char c = if leb b'a' c && leb c b'z' then c - 32 else c

-- `strings.ToLower` and `strings.ToUpper`.
unfoldable pub to_lower : List ℕ → List ℕ
to_lower text = map lower_char text

unfoldable pub to_upper : List ℕ → List ℕ
to_upper text = map upper_char text

-- `==` of strings.
abbrev pub same_text : List ℕ → List ℕ → Bool
same_text [] [] = true
same_text [] (d ∷ b) = false
same_text (c ∷ a) [] = false
same_text (c ∷ a) (d ∷ b) = (c == d) && same_text a b

-- The first position of a byte; `none` stands for -1.
unfoldable pub index_of : List ℕ → ℕ → Option ℕ
index_of [] c = none
index_of (d ∷ text) c =
    if c == d then some 0 else elim (index_of text c) [ none ↦ none | some i ↦ some (suc i) ]

-- `strings.LastIndex` of one character.
unfoldable pub last_index : List ℕ → ℕ → Option ℕ
last_index [] c = none
last_index (d ∷ text) c = elim (last_index text c) [
  | some i ↦ some (suc i)
  | none ↦ if c == d then some 0 else none
]
