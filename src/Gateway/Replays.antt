-- ===== src/Gateway/Replays.antt =====
-- A second request with an idempotency key, by what came of the first.
use microfinance_microservic.Common.{
  ℕ, ◌+◌, ◌≤◌, ◌≡◌, refl, String, Bool, ◌&&◌, Option, none, some, List, [], ◌∷◌, ◌++◌, HasEq-text,
  ◌==◌, eq_iff, if◌then◌else◌, leb, ltb, arith,
}
use microfinance_microservic.Gateway.Store.{
  Claim, Item, Store, find, put, pop, live, prune_expired, claim, claim_in, claim_found,
  store_response, release,
}
use microfinance_microservic.Gateway.Routes.{
  CallResult, answered, rejected, unavailable, Call, different_body, being_processed, Reply,
  returned, raised, State, settled, on_claim, money_route, release_on_definite_failure,
}
use microfinance_microservic.Gateway.Once.{find-put, find-pop}

module _ {R : Type 0} where
  find-live-put :
      (ttl now : ℕ) (key : String) (c : Claim R) (xs : List (Item R))
      → now ≤ c.claimed_at + ttl
      → find key (live ttl now (put key c xs)) ≡ some c
  unfolding find live put
  find-live-put ttl now key c [] h = grind (arith, eq_iff key key)
  find-live-put ttl now key c (x ∷ xs) h =
      grind (arith, find-live-put ttl now key c xs h, eq_iff key key)

  find-live-none :
      (ttl now : ℕ) (key : String) (xs : List (Item R))
      → find key xs ≡ none
      → find key (live ttl now xs) ≡ none
  unfolding find live
  find-live-none ttl now key [] h = refl
  find-live-none ttl now key (x ∷ xs) h = grind (arith, find-live-none ttl now key xs)

  -- The claim of a first request, and what is in the store once its call is over.
  abbrev first_claim : ℕ → String → Claim R
  first_claim now h = record { request_hash = h; response = none; claimed_at = now }

  -- The key after the call.
  abbrev kept : ℕ → String → CallResult R → Option (Claim R)
  kept now h (answered r) = some (record (first_claim now h) { response = some r })
  kept now h (rejected status detail) =
      if leb 400 status && ltb status 500 then none else some (first_claim now h)
  kept now h (unavailable why) = some (first_claim now h)

  -- What a second request comes to, with the same body or with another.
  abbrev pub Second :
      {W : Type 0} → Bool → CallResult R → Call → State W R → Reply R × State W R → Type 0
  Second same (answered r) c st (reply, st') =
      (reply ≡ (if same then returned r else raised 400 different_body)) × (st'.calls ≡ st.calls)
  Second same (rejected status detail) c st (reply, st') =
      st'.calls ≡ (if leb 400 status && ltb status 500 then st.calls ++ c ∷ [] else st.calls)
  Second same (unavailable why) c st (reply, st') =
      (reply ≡ (if same then raised 409 being_processed else raised 400 different_body))
      × (st'.calls ≡ st.calls)

module _ {W R : Type 0} (now : W → ℕ) (send : Call → W → CallResult R × W) where
  settled-find :
      (t : ℕ) (key h : String) (c : Call) (s : Store R) (calls : List Call) (o : CallResult R × W)
      (later : ℕ)
      → later ≤ t + s.ttl
      → find key (
          live s.ttl later
            (settled now send key c
              (record s { entries = put key (first_claim t h) s.entries })
              calls
              o).1.store.entries)
        ≡ kept t h o.0
  unfolding settled store_response release_on_definite_failure release
  settled-find t key h c s calls (answered r, w) later inside = grind (
    arith,
    find-put key key (first_claim t h) s.entries,
    eq_iff key key,
    find-live-put s.ttl later key (record (first_claim t h) { response = some r })
        (put key (first_claim t h) s.entries) inside,
  )
  settled-find t key h c s calls (rejected status detail, w) later inside = grind (
    arith,
    find-pop key key (put key (first_claim t h) s.entries),
    eq_iff key key,
    find-live-none s.ttl later key (pop key (put key (first_claim t h) s.entries)),
    find-live-put s.ttl later key (first_claim t h) s.entries inside,
  )
  settled-find t key h c s calls (unavailable why, w) later inside =
      find-live-put s.ttl later key (first_claim t h) s.entries inside

  first_eq :
      (key h : String) (c : Call) (st : State W R)
      → find key (live st.store.ttl (now st.world) st.store.entries) ≡ none
      → money_route now send key h c st
        ≡ settled now send key c
            (record st.store {
              entries =
                  put key
                    (first_claim (now st.world) h)
                    (live st.store.ttl (now st.world) st.store.entries);
            })
            st.calls
            (send c st.world)
  unfolding money_route on_claim claim claim_in claim_found prune_expired
  first_eq key h c st free = rw free

  ttl_kept :
      (key : String) (c : Call) (s : Store R) (calls : List Call) (o : CallResult R × W)
      → (settled now send key c s calls o).1.store.ttl ≡ s.ttl
  unfolding settled store_response release_on_definite_failure release
  ttl_kept key c s calls (answered r, w) = refl
  ttl_kept key c s calls (rejected status detail, w) = ground arith
  ttl_kept key c s calls (unavailable why, w) = refl

  kept_lem :
      (key h : String) (c : Call) (st : State W R) (later : ℕ)
      → find key (live st.store.ttl (now st.world) st.store.entries) ≡ none
      → later ≤ now st.world + st.store.ttl
      → let after = (money_route now send key h c st).1.store in
        find key (live after.ttl later after.entries) ≡ kept (now st.world) h (send c st.world).0
  kept_lem key h c st later free inside =
      let s = record st.store { entries = live st.store.ttl (now st.world) st.store.entries } in
      let s' = record s { entries = put key (first_claim (now st.world) h) s.entries } in
      rw (first_eq key h c st free, ttl_kept key c s' st.calls (send c st.world))
        (settled-find (now st.world) key h c s st.calls (send c st.world) later inside)

  settled_calls :
      (key : String) (c : Call) (s : Store R) (calls : List Call) (o : CallResult R × W)
      → (settled now send key c s calls o).1.calls ≡ calls ++ c ∷ []
  unfolding settled
  settled_calls key c s calls (answered r, w) = refl
  settled_calls key c s calls (rejected status detail, w) = refl
  settled_calls key c s calls (unavailable why, w) = refl

  second_lem :
      (key h h' : String) (t : ℕ) (same : Bool) (c : Call) (o : CallResult R) (st : State W R)
      → find key (live st.store.ttl (now st.world) st.store.entries) ≡ kept t h o
      → h == h' ≡ same
      → Second same o c st (money_route now send key h' c st)
  unfolding money_route on_claim claim claim_in claim_found prune_expired
  second_lem key h h' t same c (answered r) st found eq = grind arith
  second_lem key h h' t same c (rejected status detail) st found eq =
      grind
        (arith, λ (s : Store R) (calls : List Call). settled_calls key c s calls (send c st.world))
  second_lem key h h' t same c (unavailable why) st found eq = grind arith

  -- After a request with a free key, a second one with the same key, within the time to live of the
  -- first's claim, comes to what the first's call did: answered, the second has the same response
  -- and makes no call; refused with a 4xx, the second makes its call; without an answer, the second
  -- is refused with 409 and makes no call. With another body a second request whose key is not
  -- free is refused with 400 and makes no call.
  pub money_route-Second :
      (key h h' : String) (c c' : Call) (st : State W R) (w : W)
      → find key (live st.store.ttl (now st.world) st.store.entries) ≡ none
      → now w ≤ now st.world + st.store.ttl
      → let between = record (money_route now send key h c st).1 { world = w } in
        Second (h == h') (send c st.world).0 c' between (money_route now send key h' c' between)
  money_route-Second key h h' c c' st w free inside =
      second_lem key h h' (now st.world) (h == h') c' (send c st.world).0
        (record (money_route now send key h c st).1 { world = w })
        (kept_lem key h c st (now w) free inside) refl
