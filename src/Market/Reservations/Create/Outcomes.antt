-- ===== src/Market/Reservations/Create/Outcomes.antt =====
-- reservations.service.ts, `create`: what a committed reservation is, and what its compensation does.
use kurtar.Prelude.{
  ℕ, zero, suc, ◌≡◌, refl, sym, ◌∙◌, guard, ◌>>◌, ◌≤◌, inl, inr, Bool, true, false, not, ◌&&◌, ltb,
  some, ◌∷◌, Result, ok, err, err-ok, arith, Bool-cases, Option-cases, Result-cases,
}
use kurtar.Market.Rows.{any}
use kurtar.Market.Rows.Laws.{found-matched}
use kurtar.Market.State.{Db, Offer, Reservation, Error, offer_key, find_offer}
use kurtar.Market.Stock.{claim, can_claim}
use kurtar.Market.Reservations.Create.{
  Fresh, Committed, create_tx, insert_reservation, new_reservation, committed, uses_code, uses_keys,
  create_with_retry, is_code_collision,
}

-- What a commit tells: the offer could be claimed, the code and the keys were unused, and the only
-- changes are the claim and the new row.
pub record IsCommitted (user_id offer_id qty : ℕ) (fresh : Fresh) (db : Db) (c : Committed)
    (db' : Db) : Type 0 where
  pub offer : Offer
  pub found : find_offer offer_id db ≡ some offer
  pub claimable : can_claim db qty offer ≡ true
  pub new_code : any (uses_code fresh.code) db.reservations ≡ false
  pub new_keys : any (uses_keys fresh) db.reservations ≡ false
  pub same_committed : c ≡ committed (new_reservation user_id offer_id offer qty fresh) fresh
  pub same_db : db' ≡ (
      let db1 = (claim offer_id qty db).1 in
      record db1 {
        reservations = new_reservation user_id offer_id offer qty fresh ∷ db.reservations;
      })

-- An inversion of `guard test e >> m`.
guard-ok :
    {A : Type 0} (test : Bool) (x : Error) (m : Result Error A) (a : A)
    → (guard test x >> m) ≡ ok a
    → (test ≡ true) × (m ≡ ok a)
guard-ok true x m a e = (refl, e)
guard-ok false x m a e = cc

module _ (user_id offer_id : ℕ) (o : Offer) (qty : ℕ) (fresh : Fresh) (db : Db) where
  abbrev row : Reservation
  row = new_reservation user_id offer_id o qty fresh

  insert-ok :
      (c : Committed) (db' : Db)
      → insert_reservation user_id offer_id o qty fresh db ≡ ok (c, db')
      → (not (any (uses_code fresh.code) db.reservations) ≡ true)
        × (not (any (uses_keys fresh) db.reservations) ≡ true)
        × (◌≡◌ {A = Result Error (Committed × Db)}
            (ok (committed row fresh, record db { reservations = row ∷ db.reservations }))
            (ok (c, db')))
  unfolding insert_reservation
  insert-ok c db' e =
      let (a, e1) =
        guard-ok (not (any (uses_code fresh.code) db.reservations)) Error.code_collision _ (c, db')
          e in
      let (b, e2) =
        guard-ok (not (any (uses_keys fresh) db.reservations)) Error.unique_violation _ (c, db')
          e1 in
      (a, b, e2)

ok-injective :
    {A : Type 0} (c c' : A) (db db' : Db)
    → ◌≡◌ {A = Result Error (A × Db)} (ok (c, db)) (ok (c', db'))
    → (c' ≡ c) × (db' ≡ db)
ok-injective c c' db db' e = (cc, cc)

not-true : (b : Bool) → not b ≡ true → b ≡ false
not-true true e = cc
not-true false e = refl

create_tx-insert :
    (user_id offer_id qty : ℕ) (fresh : Fresh) (db : Db) (r : Committed × Db)
    → create_tx user_id offer_id qty fresh db ≡ ok r
    → (o : Offer) × (find_offer offer_id db ≡ some o)
      × ((claim offer_id qty db).0 ≡ true)
      × (insert_reservation user_id offer_id o qty fresh (claim offer_id qty db).1 ≡ ok r)
unfolding create_tx
create_tx-insert user_id offer_id qty fresh db r e = elim (Option-cases (find_offer offer_id db)) [
  | inl n ↦ absurd (err-ok Error.offer_not_found r (rw (n, create_tx) at e))
  | inr (o, n) ↦ elim (Bool-cases (claim offer_id qty db).0) [
    | inr k ↦ absurd (err-ok Error.offer_unavailable r (rw (n, k, create_tx) at e))
    | inl k ↦ (o, n, k, rw (n, k, create_tx) at e)
  ]
]

module _ (user_id offer_id qty : ℕ) (fresh : Fresh) (db : Db) where
  -- The transaction of `create` commits only when the offer exists and can be claimed (published,
  -- room for the quantity, an approved merchant) and neither the code nor the row's keys are in use;
  -- its answer and its database are then the new row's and the claim with the new row in front.
  pub create_tx-IsCommitted :
      (c : Committed) (db' : Db)
      → create_tx user_id offer_id qty fresh db ≡ ok (c, db')
      → IsCommitted user_id offer_id qty fresh db c db'
  unfolding claim
  create_tx-IsCommitted c db' e =
      let (o, n, k, e1) = create_tx-insert user_id offer_id qty fresh db (c, db') e in
      let (a, b, e2) = insert-ok user_id offer_id o qty fresh (claim offer_id qty db).1 c db' e1 in
      let (same_c, same_d) = ok-injective _ _ _ _ e2 in
      record {
        offer = o;
        found = n;
        claimable = sym (found-matched offer_key offer_id (can_claim db qty) db.offers o n) ∙ k;
        new_code = not-true _ a;
        new_keys = not-true _ b;
        same_committed = same_c;
        same_db = same_d;
      }

-- What the retry loop returns is what one of its attempts did, on the database of the call.
pub create_with_retry-committed :
    (user_id offer_id qty : ℕ) (fresh : ℕ → Fresh) (attempts : ℕ) (db : Db) (c : Committed)
    (db' : Db)
    → create_with_retry user_id offer_id qty fresh attempts db ≡ ok (c, db')
    → (n : ℕ) × (suc n ≤ attempts) × (create_tx user_id offer_id qty (fresh n) db ≡ ok (c, db'))
unfolding create_with_retry
create_with_retry-committed user_id offer_id qty fresh zero db c db' e = cc
create_with_retry-committed user_id offer_id qty fresh (suc n) db c db' e =
    elim (Result-cases (create_tx user_id offer_id qty (fresh n) db)) [
      | inr (r, t) ↦ (n, omega arith, t ∙ (rw (t, create_with_retry) at e))
      | inl (x, t) ↦ elim (Bool-cases (is_code_collision x && ltb 0 n)) [
        | inl k ↦
            let (m, lt, h) =
              create_with_retry-committed user_id offer_id qty fresh n db c db'
                (rw (t, k, create_with_retry) at e) in
            (m, omega (arith, lt), h)
        | inr k ↦
            let bad : ◌≡◌ {A = Result Error (Committed × Db)} (err x) (ok (c, db')) =
              rw (t, k, create_with_retry) at e in
            cc
      ]
    ]
