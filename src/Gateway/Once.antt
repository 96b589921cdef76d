-- ===== src/Gateway/Once.antt =====
-- Claims, stored responses and releases of any number of concurrent requests, one after another as
-- the lock of the store orders them: how often a key is granted.
use microfinance_microservic.Common.{
  ℕ, suc, ◌+◌, ◌≤◌, ◌≡◌, refl, String, Bool, true, false, ◌&&◌, Option, none, some, List, [], ◌∷◌,
  HasEq-text, ◌==◌, eq_iff, if◌then◌else◌, All, arith,
}
use microfinance_microservic.Gateway.Store.{
  Claim, Item, Store, ClaimOutcome, find, put, pop, live, prune_expired, claim, claim_in,
  claim_found, store_response, release, answered,
}

pub data Step (R : Type 0) : Type 0 where
  claiming : ℕ → String → String → Step R
  storing : String → R → Step R
  releasing : String → Step R

module _ {R : Type 0} where
  abbrev pub is_new : ClaimOutcome R → Bool
  is_new ClaimOutcome.new = true
  is_new _ = false

  -- One if the step is granted the key.
  abbrev granted_by : String → Step R → Store R → ℕ
  granted_by key (claiming now k h) s = if k == key && is_new (claim now k h s).0 then 1 else 0
  granted_by key _ s = 0

  abbrev releases_by : String → Step R → ℕ
  releases_by key (releasing k) = if k == key then 1 else 0
  releases_by key _ = 0

  abbrev pub step : Step R → Store R → Store R
  step (claiming now k h) s = (claim now k h s).1
  step (storing k r) s = store_response k r s
  step (releasing k) s = release k s

  -- How often the key is granted in a run, and how often it is released.
  abbrev pub granted : String → List (Step R) → Store R → ℕ
  granted key [] s = 0
  granted key (x ∷ xs) s = granted_by key x s + granted key xs (step x s)

  abbrev pub releases : String → List (Step R) → ℕ
  releases key [] = 0
  releases key (x ∷ xs) = releases_by key x + releases key xs

  -- The claims of a run fall in one period of the time to live.
  abbrev pub Within : ℕ → ℕ → Step R → Type 0
  Within start ttl (claiming now k h) = (start ≤ now) × (now ≤ start + ttl)
  Within start ttl (storing k r) = Unit
  Within start ttl (releasing k) = Unit

  abbrev pub held : Option (Claim R) → ℕ
  held none = 0
  held (some c) = 1

  -- Nothing in the store was claimed before the period.
  abbrev pub Since : ℕ → List (Item R) → Type 0
  Since start = All (λ x. start ≤ x.value.claimed_at)

  live-Since :
      (start ttl now : ℕ) (xs : List (Item R))
      → Since start xs
      → now ≤ start + ttl
      → live ttl now xs ≡ xs
  unfolding live
  live-Since start ttl now [] since inside = refl
  live-Since start ttl now (x ∷ xs) since inside =
      grind (arith, live-Since start ttl now xs since.1 inside, since.0)

  put-Since :
      (start : ℕ) (k : String) (c : Claim R) (xs : List (Item R))
      → Since start xs
      → start ≤ c.claimed_at
      → Since start (put k c xs)
  unfolding put
  put-Since start k c [] since h = (h, tt)
  put-Since start k c (x ∷ xs) since h = grind (arith, put-Since start k c xs since.1 h, since)

  pop-Since :
      (start : ℕ) (k : String) (xs : List (Item R)) → Since start xs → Since start (pop k xs)
  unfolding pop
  pop-Since start k [] since = tt
  pop-Since start k (x ∷ xs) since = grind (arith, pop-Since start k xs since.1, since)

  find-Since :
      (start : ℕ) (k : String) (c : Claim R) (xs : List (Item R))
      → Since start xs
      → find k xs ≡ some c
      → start ≤ c.claimed_at
  unfolding find
  find-Since start k c [] since h = ground arith
  find-Since start k c (x ∷ xs) since h = grind (arith, find-Since start k c xs since.1, since)

  pub find-put :
      (key k : String) (c : Claim R) (xs : List (Item R))
      → find key (put k c xs) ≡ (if k == key then some c else find key xs)
  unfolding find put
  find-put key k c [] = refl
  find-put key k c (x ∷ xs) =
      grind (arith, find-put key k c xs, eq_iff x.key k, eq_iff x.key key, eq_iff k key)

  pub find-pop :
      (key k : String) (xs : List (Item R))
      → find key (pop k xs) ≡ (if k == key then none else find key xs)
  unfolding find pop
  find-pop key k [] = ground arith
  find-pop key k (x ∷ xs) =
      grind (arith, find-pop key k xs, eq_iff x.key k, eq_iff x.key key, eq_iff k key)

  -- A claim in the period, of a store whose claims are all of the period, prunes nothing.
  claim_eq :
      (start now : ℕ) (k h : String) (s : Store R)
      → Since start s.entries
      → now ≤ start + s.ttl
      → claim now k h s ≡ claim_found now k h (find k s.entries) s
  unfolding claim claim_in prune_expired
  claim_eq start now k h s since inside = rw (live-Since start s.ttl now s.entries since inside)

  found-Since :
      (start now : ℕ) (k h : String) (o : Option (Claim R)) (s : Store R)
      → Since start s.entries
      → start ≤ now
      → Since start (claim_found now k h o s).1.entries × ((claim_found now k h o s).1.ttl ≡ s.ttl)
  unfolding claim_found
  found-Since start now k h none s since from = (
    put-Since start k (record { request_hash = h; response = none; claimed_at = now }) s.entries
        since from,
    refl,
  )
  found-Since start now k h (some c) s since from = grind arith

  answered-Since :
      (start : ℕ) (k : String) (r : R) (o : Option (Claim R)) (xs : List (Item R))
      → find k xs ≡ o
      → Since start xs
      → Since start (answered k r o xs)
  answered-Since start k r none xs h since = since
  answered-Since start k r (some c) xs h since =
      put-Since start k (record c { response = some r }) xs since (find-Since start k c xs since h)

  step-Since :
      (start : ℕ) (x : Step R) (s : Store R)
      → Since start s.entries
      → Within start s.ttl x
      → Since start (step x s).entries × ((step x s).ttl ≡ s.ttl)
  unfolding store_response release
  step-Since start (claiming now k h) s since inside =
      rw (step, claim_eq start now k h s since inside.1)
        (found-Since start now k h (find k s.entries) s since inside.0)
  step-Since start (storing k r) s since inside =
      (answered-Since start k r (find k s.entries) s.entries refl since, refl)
  step-Since start (releasing k) s since inside = (pop-Since start k s.entries since, refl)

  found_count :
      (key : String) (now : ℕ) (k h : String) (o : Option (Claim R)) (s : Store R)
      → find k s.entries ≡ o
      → (if k == key && is_new (claim_found now k h o s).0 then 1 else 0)
          + held (find key s.entries)
        ≤ held (find key (claim_found now k h o s).1.entries)
  unfolding claim_found
  found_count key now k h none s e = grind (
    arith,
    find-put key k (record { request_hash = h; response = none; claimed_at = now }) s.entries,
    eq_iff k key,
  )
  found_count key now k h (some c) s e = ground arith

  answered_count :
      (key k : String) (r : R) (o : Option (Claim R)) (xs : List (Item R))
      → find k xs ≡ o
      → held (find key xs) ≤ held (find key (answered k r o xs))
  answered_count key k r none xs e = omega arith
  answered_count key k r (some c) xs e =
      grind (arith, find-put key k (record c { response = some r }) xs, eq_iff k key)

  step_count :
      (start : ℕ) (key : String) (x : Step R) (s : Store R)
      → Since start s.entries
      → Within start s.ttl x
      → granted_by key x s + held (find key s.entries)
        ≤ releases_by key x + held (find key (step x s).entries)
  unfolding store_response release
  step_count start key (claiming now k h) s since inside = grind (
    arith,
    claim_eq start now k h s since inside.1,
    found_count key now k h (find k s.entries) s refl,
  )
  step_count start key (storing k r) s since inside =
      omega (arith, answered_count key k r (find k s.entries) s.entries refl)
  step_count start key (releasing k) s since inside = grind (arith, find-pop key k s.entries)

  held_le : (o : Option (Claim R)) → held o ≤ 1
  held_le none = omega arith
  held_le (some c) = omega arith

  -- From a store whose entries were all claimed from a time on, and while every claim is made from that time
  -- on and at most the time to live after it: whatever requests claim, store and release, in whatever order,
  -- a key is granted at most once more than it is released, and where it is held at first at most as
  -- often as it is released.
  pub granted_once :
      (start : ℕ) (key : String) (xs : List (Step R)) (s : Store R)
      → Since start s.entries
      → All (Within start s.ttl) xs
      → granted key xs s + held (find key s.entries) ≤ suc (releases key xs)
  granted_once start key [] s since inside = ground (arith, held_le (find key s.entries))
  granted_once start key (x ∷ xs) s since inside =
      let kept = step-Since start x s since inside.0 in
      omega (
        arith,
        step_count start key x s since inside.0,
        granted_once start key xs (step x s) kept.0 (rw kept.1 inside.1),
      )
