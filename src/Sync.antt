-- ===== src/Sync.antt =====
-- services/analytics-sync/app/sync.py: the loop of `main`, over the pages that `export_since` of
-- services/ledger-service/app/repository.py answers with. A row is its `created_at` and the rest of
-- it; the rows of the query stand in its order. The warehouse keeps the watermark and the rows in the
-- order of their loads; which of its calls fail is a parameter, where a fetch that fails counts as the
-- load after it, and a load of a page is one batch.
mod Pages
pub mod Complete
mod Tests
use microfinance_microservic.Common.{
  ℕ, zero, suc, Bool, Option, none, some, List, [], ◌∷◌, ◌++◌, ltb, if◌then◌else◌, length, take,
}

module _ {A : Type 0} where
  -- WHERE t.created_at > since, where there is one
  unfoldable pub newer : Option ℕ → List (ℕ × A) → List (ℕ × A)
  newer none rows = rows
  newer (some since) [] = []
  newer (some since) ((at, row) ∷ rows) =
      let later = newer (some since) rows in if ltb since at then (at, row) ∷ later else later

  -- `export_since`
  unfoldable pub export_since : Option ℕ → ℕ → List (ℕ × A) → List (ℕ × A)
  unfolding newer
  export_since since limit rows = take limit (newer since rows)

  -- `rows[-1]["created_at"]`
  unfoldable pub last_at : ℕ → List (ℕ × A) → ℕ
  last_at at [] = at
  last_at at ((later, row) ∷ rows) = last_at later rows

pub record Warehouse (A : Type 0) : Type 0 where
  pub watermark : Option ℕ
  pub facts : List (ℕ × A)

-- How `main` ends: with its status 0 or 1, or without fuel
pub data Ended (A : Type 0) : Type 0 where
  complete : Warehouse A → Ended A
  failed : Warehouse A → Ended A
  out_of_fuel : Ended A

module _ {A : Type 0} (load_fails mark_fails : Warehouse A → Bool) where
  abbrev pub loaded : List (ℕ × A) → Warehouse A → Warehouse A
  loaded rows w = record { watermark = w.watermark; facts = w.facts ++ rows }

  abbrev pub marked : ℕ → Warehouse A → Warehouse A
  marked at w = record { watermark = some at; facts = w.facts }

  -- What a round makes of its page, with the rest of the loop
  unfoldable pub on_page : (Warehouse A → Ended A) → ℕ → List (ℕ × A) → Warehouse A → Ended A
  unfolding last_at
  on_page loop limit [] w = complete w
  on_page loop limit ((at, row) ∷ rows) w =
      let page : List (ℕ × A) = (at, row) ∷ rows in
      let w1 : Warehouse A = loaded page w in
      let w2 : Warehouse A = marked (last_at at rows) w1 in
      let more = loop w2 in
      if load_fails w
      then failed w
      else if mark_fails w1
      then failed w1
      else if ltb (length page) limit
      then complete w2
      else more

  -- `while True`, by fuel, with PAGE_SIZE
  unfoldable pub sync_loop : ℕ → ℕ → List (ℕ × A) → Warehouse A → Ended A
  unfolding export_since on_page
  sync_loop zero limit rows w = out_of_fuel
  sync_loop (suc fuel) limit rows w =
      on_page (sync_loop fuel limit rows) limit (export_since w.watermark limit rows) w
