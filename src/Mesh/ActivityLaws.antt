-- ===== src/Mesh/ActivityLaws.antt =====
-- pkg/mesh/activity.go: the log and the history of what was noted.
use forgenx_engine.Prelude.{
  ℕ, zero, suc, ◌-◌, ◌≤◌, ◌≡◌, refl, sym, ap, ◌∙◌, false, List, [], ◌∷◌, ◌++◌, ltb, if◌then◌else◌,
  length, take, drop, arith, length-append, Bool-cases, inl, inr,
}
use forgenx_engine.Coin.Text.{same_text}
use forgenx_engine.Mesh.Activity.{Activity, note, newest_first, recent, note_all}

-- The whole history of named events, the latest first: an unbounded log.
pub unbounded_log : List Activity → List Activity → List Activity
unbounded_log [] log = log
unbounded_log (event ∷ history) log =
    unbounded_log history (if same_text event.worker [] then log else event ∷ log)

module _ {ℓ} {A : Type ℓ} where
  take-append_left : (n : ℕ) (xs ys : List A) → n ≤ length xs → take n (xs ++ ys) ≡ take n xs
  take-append_left zero xs ys h = refl
  take-append_left (suc n) [] ys h = elim h [ ]
  take-append_left (suc n) (x ∷ xs) ys h = ap (λ l. x ∷ l) (take-append_left n xs ys (omega arith))

  take-all : (n : ℕ) (xs : List A) → length xs ≤ n → take n xs ≡ xs
  take-all zero [] h = refl
  take-all zero (x ∷ xs) h = elim h [ ]
  take-all (suc n) [] h = refl
  take-all (suc n) (x ∷ xs) h = ap (λ l. x ∷ l) (take-all n xs (omega arith))

  take-take : (m n : ℕ) (xs : List A) → m ≤ n → take m (take n xs) ≡ take m xs
  take-take zero n xs h = refl
  take-take (suc m) zero xs h = elim h [ ]
  take-take (suc m) (suc n) [] h = refl
  take-take (suc m) (suc n) (x ∷ xs) h = ap (λ l. x ∷ l) (take-take m n xs (omega arith))

length-newest_first : (xs : List Activity) → length (newest_first xs) ≡ length xs
unfolding newest_first
length-newest_first [] = refl
length-newest_first (x ∷ xs) =
    omega (arith, length-append (newest_first xs) (x ∷ []), length-newest_first xs)

newest_first-append :
    (xs : List Activity) (x : Activity) → newest_first (xs ++ x ∷ []) ≡ x ∷ newest_first xs
unfolding newest_first
newest_first-append [] x = refl
newest_first-append (y ∷ xs) x = rw (newest_first-append xs x)

-- Dropping all but `n` events from the front keeps the `n` newest.
newest_first-drop :
    (n : ℕ) (xs : List Activity) → newest_first (drop (length xs - n) xs) ≡ take n (newest_first xs)
unfolding newest_first
newest_first-drop n [] =
    let none_over : 0 - n ≡ 0 = omega arith in rw none_over (sym (take-all n [] (omega arith)))
newest_first-drop n (x ∷ xs) = elim (Bool-cases (ltb (length xs) n)) [
  | inl e ↦
      let all : length (x ∷ xs) - n ≡ 0 = ground arith in
      let short : length (newest_first (x ∷ xs)) ≤ n =
        ground (arith, length-newest_first (x ∷ xs)) in
      rw all (sym (take-all n (newest_first (x ∷ xs)) short))
  | inr e ↦
      let more : length (x ∷ xs) - n ≡ suc (length xs - n) = ground arith in
      let long : n ≤ length (newest_first xs) = ground (arith, length-newest_first xs) in
      rw more (newest_first-drop n xs ∙ sym (take-append_left n (newest_first xs) (x ∷ []) long))
]

note-named :
    (event : Activity) (events : List Activity)
    → same_text event.worker [] ≡ false
    → newest_first (note event events) ≡ take 50 (event ∷ newest_first events)
unfolding note
note-named event events named =
    let noted = events ++ event ∷ [] in
    let newest = newest_first-append events event in
    elim (Bool-cases (ltb 50 (length noted))) [
      | inl e ↦ rw (named, e) (newest_first-drop 50 noted ∙ ap (take 50) newest)
      | inr e ↦
          let short : length (newest_first noted) ≤ 50 =
            ground (arith, length-newest_first noted) in
          rw (named, e) (sym (take-all 50 (newest_first noted) short) ∙ ap (take 50) newest)
    ]

newest_first-note_all :
    (history events log : List Activity)
    → newest_first events ≡ take 50 log
    → newest_first (note_all history events) ≡ take 50 (unbounded_log history log)
unfolding note_all unbounded_log
newest_first-note_all [] events log h = h
newest_first-note_all (event ∷ history) events log h =
    elim (Bool-cases (same_text event.worker [])) [
      | inl e ↦
          let same : note event events ≡ events = unfold note in rw e refl in
          rw (e, same) (newest_first-note_all history events log h)
      | inr e ↦ rw e (
          newest_first-note_all history (note event events) (event ∷ log) (
            note-named event events e
            ∙ ap (λ l. take 50 (event ∷ l)) h
            ∙ ap (λ l. event ∷ l) (take-take 49 50 log (omega arith))))
    ]

-- Whatever has been noted, the log shows the fifty newest events of the unbounded log that have a
-- worker, the latest first.
pub recent-note_all :
    (history : List Activity) → recent (note_all history []) ≡ take 50 (unbounded_log history [])
unfolding recent
recent-note_all history = newest_first-note_all history [] [] (unfold newest_first in refl)
