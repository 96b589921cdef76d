-- ===== src/Sync/Tests.antt =====
-- Runs of the synchronisation, and an instance of its theorem.
use microfinance_microservic.Common.{
  ℕ, ◌≡◌, refl, String, Bool, true, false, none, some, List, [], ◌∷◌, arith,
}
use microfinance_microservic.Sync.{
  newer, export_since, last_at, Warehouse, complete, on_page, sync_loop,
}
use microfinance_microservic.Sync.Complete.{IsConsistent, sync_loop-IsConsistent}

abbrev never : Warehouse String → Bool
never w = false

-- The load of the second page fails.
abbrev second : Warehouse String → Bool
second w = elim w.facts [ [] ↦ false | ◌∷◌ r rows ↦ true ]

abbrev empty : Warehouse String
empty = record { watermark = none; facts = [] }

abbrev rows : List (ℕ × String)
rows = (1, "a") ∷ (2, "b") ∷ (4, "c") ∷ []

sync_loop-IsConsistent_example :
    IsConsistent second never 2 rows rows empty (sync_loop second never 4 2 rows empty)
unfolding newer
sync_loop-IsConsistent_example =
    sync_loop-IsConsistent second never 4 2 rows empty
      ((omega arith, (omega arith, tt)), ((omega arith, tt), (tt, tt))) (omega arith) (omega arith)

-- Two rows of one time on either side of the end of a page: the second is never loaded.
skipped :
    sync_loop never never 4 1 ((1, "a") ∷ (1, "b") ∷ []) empty
    ≡ complete (record { watermark = some 1; facts = (1, "a") ∷ [] })
unfolding sync_loop on_page export_since newer last_at
skipped = refl
