-- ===== src/Market/Reservations/Create/Whole.antt =====
-- reservations.service.ts, `create`, as a whole: the offer's stock after a success and after a throw.
use kurtar.Prelude.{
  ℕ, ◌≡◌, refl, ◌∙◌, ap, sym, Bool, true, false, Option, some, ok, err, Result, ◌<◌, Bool-cases,
  Result-cases, inl, inr, if◌then◌else◌,
}
use kurtar.Market.Rows.Compose.{find-write_same}
use kurtar.Market.State.{Db, Error, Offer, offer_key, find_offer}
use kurtar.Market.Stock.{claim, can_claim, claimed}
use kurtar.Market.Reservations.Create.{
  Fresh, Committed, Created, IntentCall, create, create_with_retry, start_payment,
  max_code_attempts,
}
use kurtar.Market.Reservations.Create.Outcomes.{
  IsCommitted, create_tx-IsCommitted, create_with_retry-committed,
}
use kurtar.Market.Reservations.Create.Compensation.{compensate_failed_intent-undoes}

abbrev pub is_created : Result Error Created → Bool
is_created (ok created) = true
is_created (err x) = false

committed-offer :
    (user_id offer_id qty : ℕ) (fresh : Fresh) (db : Db) (o : Offer) (c : Committed) (db' : Db)
    → find_offer offer_id db ≡ some o
    → IsCommitted user_id offer_id qty fresh db c db'
    → find_offer offer_id db' ≡ some (claimed qty o)
unfolding claim
committed-offer user_id offer_id qty fresh db o c db' e k =
    let same_row : k.offer ≡ o = some-injective k.offer o (sym k.found ∙ e) in
    let can : can_claim db qty o ≡ true = ap (can_claim db qty) (sym same_row) ∙ k.claimable in
    ap (find_offer offer_id) k.same_db
    ∙ find-write_same offer_key offer_id (can_claim db qty) (claimed qty) db.offers o (λ _. refl) e
    ∙ rw can
  where
    some-injective : (x y : Offer) → ◌≡◌ {A = Option Offer} (some x) (some y) → x ≡ y
    some-injective x y q = cc

-- A call of `create` for at least one bag of an offer that is found, when nothing runs in between:
-- if it returns a reservation, the offer has the quantity more reserved, and is sold out when that
-- is its total; if it throws, for whatever reason and after however many draws, also when the
-- payment provider refused the intent of a reservation that was committed, the offer is exactly as
-- it was.
pub create-stock :
    (call : IntentCall) (lost : Bool) (user_id offer_id qty : ℕ) (fresh : ℕ → Fresh) (o : Offer)
    (db : Db)
    → 0 < qty
    → find_offer offer_id db ≡ some o
    → find_offer offer_id (create call lost user_id offer_id qty fresh db).1
      ≡ some (
          if is_created (create call lost user_id offer_id qty fresh db).0
          then claimed qty o
          else o)
unfolding create start_payment
create-stock call lost user_id offer_id qty fresh o db some_bags e =
    elim (Result-cases (create_with_retry user_id offer_id qty fresh max_code_attempts db)) [
      | inl (x, t) ↦ rw (t, create) e
      | inr ((c, db1), t) ↦
          let (n, _, tx) =
            create_with_retry-committed user_id offer_id qty fresh max_code_attempts db c db1 t in
          let k = create_tx-IsCommitted user_id offer_id qty (fresh n) db c db1 tx in
          let taken = committed-offer user_id offer_id qty (fresh n) db o c db1 e k in
          elim (Result-cases (call c.merchant_oid c.total_cents c.idempotency_key)) [
            | inl (x, a) ↦
                let undone =
                  compensate_failed_intent-undoes user_id offer_id qty (fresh n) db c db1 some_bags
                    tx in
                rw (t, a, create, start_payment) (undone.0 ∙ e)
            | inr ((ref, redirect), a) ↦ elim (Bool-cases lost) [
              | inl l ↦ rw (t, a, l, create, start_payment) taken
              | inr l ↦ rw (t, a, l, create, start_payment) taken
            ]
          ]
    ]
