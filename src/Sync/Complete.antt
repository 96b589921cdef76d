-- ===== src/Sync/Complete.antt =====
-- What a run of the synchronisation leaves in the warehouse.
use microfinance_microservic.Common.{
  ℕ, zero, suc, ◌+◌, ◌≤◌, ◌<◌, ◌≡◌, refl, sym, ap, ◌∙◌, subst, Bool, some, List, [], ◌∷◌, ◌++◌,
  append_assoc, append-nil, ltb, length, take, drop, length-append, All-append, ◌⊎◌, inl, inr,
  Bool-cases, arith,
}
use microfinance_microservic.Sync.{
  newer, export_since, last_at, Warehouse, Ended, complete, failed, loaded, marked, on_page,
  sync_loop,
}
use microfinance_microservic.Sync.Pages.{
  Ascending, take-drop, length-take, drop_short, newer-split, newer_last, page_split, old_before,
}

module _ {A : Type 0} (load_fails mark_fails : Warehouse A → Bool) where
  -- A run with the rows of the ledger, from a warehouse that lacks `todo` of them. It is complete:
  -- each of them is loaded once, in order, and none is newer than the watermark. Or it has failed
  -- with a first part of them loaded, once and in order; newer than the watermark are the others, after
  -- an end of that part no longer than a page.
  abbrev pub IsConsistent : ℕ → List (ℕ × A) → List (ℕ × A) → Warehouse A → Ended A → Type 0
  IsConsistent limit rows todo w result =
      ((w' : Warehouse A) × (result ≡ complete w')
        × (w'.facts ≡ w.facts ++ todo)
        × (newer w'.watermark rows ≡ []))
      ⊎ ((w' : Warehouse A) × (part again rest : List (ℕ × A)) × (result ≡ failed w')
          × (todo ≡ part ++ (again ++ rest))
          × (w'.facts ≡ w.facts ++ (part ++ again))
          × (newer w'.watermark rows ≡ again ++ rest)
          × (length again ≤ limit))

  advanced :
      (rows old rest : List (ℕ × A)) (at : ℕ) (row : A) (page : List (ℕ × A))
      → Ascending rows
      → rows ≡ old ++ (at, row) ∷ (page ++ rest)
      → newer (some (last_at at page)) rows ≡ rest
  advanced rows old rest at row page sorted e =
      let (before, tail) = old_before old at row page rest (rw e at sorted) in
      let (here, after) = page_split at row page rest tail in
      rw (e, sym (append_assoc old ((at, row) ∷ page) rest))
        (newer-split (last_at at page) (old ++ (at, row) ∷ page) rest
          (All-append (λ r. r.0 ≤ last_at at page) old ((at, row) ∷ page) before here) after)

  continue :
      (limit : ℕ) (rows page rest : List (ℕ × A)) (w w2 : Warehouse A) (result : Ended A)
      → w2.facts ≡ w.facts ++ page
      → IsConsistent limit rows rest w2 result
      → IsConsistent limit rows (page ++ rest) w result
  continue limit rows page rest w w2 result facts (inl (w', e, all, none_newer)) =
      inl (w', e, all ∙ rw facts (append_assoc w.facts page rest), none_newer)
  continue limit rows page rest w w2 result facts
        (inr (w', part, again, left, e, split, all, more, few)) =
      inr (
        w',
        page ++ part,
        again,
        left,
        e,
        rw split (sym (append_assoc page part (again ++ left))),
        all ∙ rw (facts, append_assoc page part again) (append_assoc w.facts page (part ++ again)),
        more,
        few,
      )

  on_page-IsConsistent :
      (loop : Warehouse A → Ended A) (limit : ℕ) (rows old page rest : List (ℕ × A))
      (w : Warehouse A)
      → Ascending rows
      → rows ≡ old ++ (page ++ rest)
      → newer w.watermark rows ≡ page ++ rest
      → 1 ≤ limit
      → length page ≤ limit
      → (length page < limit → rest ≡ [])
      → ((w2 : Warehouse A)
          → 1 ≤ length page
          → newer w2.watermark rows ≡ rest
          → IsConsistent limit rows rest w2 (loop w2))
      → IsConsistent limit rows (page ++ rest) w (on_page load_fails mark_fails loop limit page w)
  unfolding on_page
  on_page-IsConsistent loop limit rows old [] rest w sorted e now lo few short next =
      let over : rest ≡ [] = short lo in
      inl (w, refl, rw over (sym (append-nil w.facts)), now ∙ over)
  on_page-IsConsistent loop limit rows old ((at, row) ∷ page) rest w sorted e now lo few short
        next =
      let newest = advanced rows old rest at row page sorted e in
      let w1 : Warehouse A = loaded load_fails mark_fails ((at, row) ∷ page) w in
      let w2 : Warehouse A = marked load_fails mark_fails (last_at at page) w1 in
      elim (Bool-cases (load_fails w)) [
        | inl no_load ↦ rw no_load (
            inr (
              w,
              [],
              [],
              (at, row) ∷ (page ++ rest),
              refl,
              refl,
              sym (append-nil w.facts),
              now,
              omega arith,
            ))
        | inr load ↦ elim (Bool-cases (mark_fails w1)) [
          | inl no_mark ↦
              rw (load, no_mark) (inr (w1, [], (at, row) ∷ page, rest, refl, refl, refl, now, few))
          | inr mark ↦ elim (Bool-cases (ltb (suc (length page)) limit)) [
            | inl last ↦
                let over : rest ≡ [] = short (ground arith) in
                rw (load, mark, last)
                  (inl (w2, refl, rw (over, append-nil page) refl, newest ∙ over))
            | inr full ↦
                rw (load, mark, full)
                  (continue limit rows ((at, row) ∷ page) rest w w2 (loop w2) refl
                    (next w2 (omega arith) newest))
          ]
        ]
      ]

  sync_loop-step :
      (fuel limit : ℕ) (rows old todo : List (ℕ × A)) (w : Warehouse A)
      → Ascending rows
      → rows ≡ old ++ todo
      → newer w.watermark rows ≡ todo
      → 1 ≤ limit
      → length todo < fuel
      → IsConsistent limit rows todo w (sync_loop load_fails mark_fails fuel limit rows w)
  unfolding sync_loop export_since
  sync_loop-step zero limit rows old todo w sorted e now lo enough = absurd (omega arith)
  sync_loop-step (suc fuel) limit rows old todo w sorted e now lo enough =
      let page : List (ℕ × A) = take limit todo in
      let rest : List (ℕ × A) = drop limit todo in
      let whole : page ++ rest ≡ todo = take-drop limit todo in
      let size : length page + length rest ≡ length todo =
        sym (length-append page rest) ∙ ap length whole in
      let split : rows ≡ old ++ (page ++ rest) = e ∙ rw whole refl in
      subst
        (λ rs. IsConsistent limit rows rs w (
          on_page load_fails mark_fails (sync_loop load_fails mark_fails fuel limit rows) limit
            (take limit (newer w.watermark rows)) w))
        whole
        (rw now (
          on_page-IsConsistent (sync_loop load_fails mark_fails fuel limit rows) limit rows old page
            rest w sorted split (now ∙ sym whole) lo (length-take limit todo)
            (drop_short limit todo)
            (λ w2 some_page newest.
              sync_loop-step fuel limit rows (old ++ page) rest w2 sorted
                (split ∙ sym (append_assoc old page rest)) newest lo
                (omega (arith, size, enough, some_page)))))

  -- Where the rows stand in the order of their times, no two of them have one time and none is added during
  -- the run, a run with fuel for more than the rows that the warehouse lacks ends. It is complete, with each of these rows loaded once and in order, and none of them newer
  -- than the watermark; or a call of the warehouse has failed, a first part of them is loaded, once
  -- and in order, and newer than the watermark are the others, with an end of that part that is no
  -- longer than a page.
  pub sync_loop-IsConsistent :
      (fuel limit : ℕ) (rows : List (ℕ × A)) (w : Warehouse A)
      → Ascending rows
      → 1 ≤ limit
      → length (newer w.watermark rows) < fuel
      → IsConsistent limit rows
          (newer w.watermark rows)
          w
          (sync_loop load_fails mark_fails fuel limit rows w)
  sync_loop-IsConsistent fuel limit rows w sorted lo enough =
      let (old, split) = newer_last w.watermark rows sorted in
      sync_loop-step fuel limit rows old (newer w.watermark rows) w sorted split refl lo enough
