-- ===== src/Sync/Pages.antt =====
-- Rows in the order of their times, the pages of them, and the rows that a watermark leaves.
use microfinance_microservic.Common.{
  ℕ, zero, suc, ◌≤◌, ◌<◌, ◌≡◌, refl, ap, Option, none, some, List, [], ◌∷◌, ◌++◌, ltb, length, take,
  drop, All, inl, inr, Bool-cases, arith,
}
use microfinance_microservic.Sync.{newer, last_at}

module _ {A : Type 0} where
  -- No two rows have one time, and they stand in the order of their times.
  abbrev pub Ascending : List (ℕ × A) → Type 0
  Ascending [] = Unit
  Ascending (r ∷ rows) = All (λ s. r.0 < s.0) rows × Ascending rows

  pub take-drop : (n : ℕ) (xs : List (ℕ × A)) → take n xs ++ drop n xs ≡ xs
  take-drop zero xs = refl
  take-drop (suc n) [] = refl
  take-drop (suc n) (x ∷ xs) = rw (take-drop n xs) refl

  pub length-take : (n : ℕ) (xs : List (ℕ × A)) → length (take n xs) ≤ n
  length-take zero xs = omega arith
  length-take (suc n) [] = omega arith
  length-take (suc n) (x ∷ xs) = omega (arith, length-take n xs)

  pub drop_short : (n : ℕ) (xs : List (ℕ × A)) → length (take n xs) < n → drop n xs ≡ []
  drop_short zero xs h = absurd (omega arith)
  drop_short (suc n) [] h = refl
  drop_short (suc n) (x ∷ xs) h = drop_short n xs (omega arith)

  pub newer-split :
      (t : ℕ) (old new : List (ℕ × A))
      → All (λ r. r.0 ≤ t) old
      → All (λ r. t < r.0) new
      → newer (some t) (old ++ new) ≡ new
  unfolding newer
  newer-split t [] [] ho hn = refl
  newer-split t [] ((at, row) ∷ new) ho hn = grind (arith, newer-split t [] new tt hn.1, hn.0)
  newer-split t ((at, row) ∷ old) new ho hn = grind (arith, newer-split t old new ho.1 hn, ho.0)

  pub above :
      (t at : ℕ) (rows : List (ℕ × A)) → t < at → All (λ s. at < s.0) rows → All (λ s. t < s.0) rows
  above t at [] lt h = tt
  above t at (r ∷ rows) lt h = (omega (arith, lt, h.0), above t at rows lt h.1)

  -- The rows that a watermark leaves are the last ones.
  pub newer_last :
      (since : Option ℕ) (rows : List (ℕ × A))
      → Ascending rows
      → (old : List (ℕ × A)) × (rows ≡ old ++ newer since rows)
  unfolding newer
  newer_last none rows h = ([], refl)
  newer_last (some t) [] h = ([], refl)
  newer_last (some t) ((at, row) ∷ rows) h = elim (Bool-cases (ltb t at)) [
    | inl e ↦
        let all = newer-split t [] rows tt (above t at rows (ground arith) h.0) in
        ([], rw (e, all) refl)
    | inr e ↦
        let (old, split) = newer_last (some t) rows h.1 in
        ((at, row) ∷ old, rw e (ap (λ xs. (at, row) ∷ xs) split))
  ]

  pub last_at-All :
      (P : ℕ → Type 0) (at : ℕ) (rows rest : List (ℕ × A))
      → P at
      → All (λ r. P r.0) (rows ++ rest)
      → P (last_at at rows)
  unfolding last_at
  last_at-All P at [] rest h hs = h
  last_at-All P at ((later, row) ∷ rows) rest h hs = last_at-All P later rows rest hs.0 hs.1

  -- The rows up to the last of a page, and those after it.
  pub page_split :
      (at : ℕ) (row : A) (page rest : List (ℕ × A))
      → Ascending ((at, row) ∷ (page ++ rest))
      → All (λ r. r.0 ≤ last_at at page) ((at, row) ∷ page) × All (λ r. last_at at page < r.0) rest
  unfolding last_at
  page_split at row [] rest h = ((omega arith, tt), h.0)
  page_split at row ((later, next) ∷ page) rest h =
      let (before, after) = page_split later next page rest h.1 in
      ((omega (arith, last_at-All (λ t. at < t) later page rest h.0.0 h.0.1), before), after)

  pub after_old :
      (old rest : List (ℕ × A)) (t : ℕ) → All (λ s. t < s.0) (old ++ rest) → All (λ s. t < s.0) rest
  after_old [] rest t h = h
  after_old (o ∷ old) rest t h = after_old old rest t h.1

  pub old_before :
      (old : List (ℕ × A)) (at : ℕ) (row : A) (page rest : List (ℕ × A))
      → Ascending (old ++ (at, row) ∷ (page ++ rest))
      → All (λ r. r.0 ≤ last_at at page) old × Ascending ((at, row) ∷ (page ++ rest))
  old_before [] at row page rest h = (tt, h)
  old_before ((t, o) ∷ old) at row page rest h =
      let (before, sorted) = old_before old at row page rest h.1 in
      let later = after_old old ((at, row) ∷ (page ++ rest)) t h.0 in
      ((omega (arith, last_at-All (λ x. t < x) at page rest later.0 later.1), before), sorted)
