-- ===== src/Mesh/Activity.antt =====
-- pkg/mesh/activity.go: the last fifty things that the mesh did.
use forgenx_engine.Prelude.{ℕ, ◌-◌, List, [], ◌∷◌, ◌++◌, ltb, if◌then◌else◌, length, drop}
use forgenx_engine.Coin.Text.{same_text}

abbrev pub activity_kept : ℕ
activity_kept = 50

-- `at` is the clock's reading in nanoseconds.
pub record Activity : Type 0 where
  pub at : ℕ
  pub kind : List ℕ
  pub worker : List ℕ
  pub from : List ℕ
  pub to : List ℕ
  pub detail : List ℕ

-- An event is noted with the worker that it is about; one without a worker is dropped.
unfoldable pub note : Activity → List Activity → List Activity
note event events =
    let noted = events ++ event ∷ [] in
    let over = length noted - activity_kept in
    if same_text event.worker []
    then events
    else if ltb activity_kept (length noted)
    then drop over noted
    else noted

-- The loop fills a slice from its end.
unfoldable pub newest_first : List Activity → List Activity
newest_first [] = []
newest_first (event ∷ events) = newest_first events ++ event ∷ []

-- The method `Activity`.
unfoldable pub recent : List Activity → List Activity
recent events = newest_first events

-- The log after a history of calls of `note`, the earliest first.
unfoldable pub note_all : List Activity → List Activity → List Activity
note_all [] events = events
note_all (event ∷ history) events = note_all history (note event events)
