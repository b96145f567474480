-- ===== src/Market/History/Moves.antt =====
-- Every step of the services is a chain of lawful moves of the reservations.
use kurtar.Prelude.{ℕ, ◌≡◌, refl, some, Result, ok, arith}
use kurtar.Market.State.{Db, Error, Reservation, find_reservation}
use kurtar.Market.Moves.{Moves, Moves-Evolves, IsSameOrder, Reaches, Reaches-trans, same_rows, stay}
use kurtar.Market.Moves.Steps.{
  payment-Moves, create_tx-Moves, compensate_failed_intent-Moves, cancel_tx-Moves, redeem_tx-Moves,
}
use kurtar.Market.Moves.Settle.{
  fan_out_one-Moves, settle_tx-Moves, mark_no_show-Moves, refund_for_cancellation-Moves,
}
use kurtar.Market.Conservation.Steps.{After}
use kurtar.Market.History.{
  Step, Reach, creates, records_intent, compensates, cancels, fans_out, redeems, logs_event,
  settles, marks_no_show, claims_refund, unclaims_refund, refunds, edits_offer, adds_offer,
  administers, here, next,
}

-- What holds after a transaction, when it has returned.
pub After-ok :
    {A : Type 0} (P : Db → Type 0) (r : Result Error (A × Db)) (a : A) (db : Db)
    → After P r
    → r ≡ ok (a, db)
    → P db
After-ok P r a db p e = let q : After P (ok (a, db)) = rw e at p in q

pub Step-Moves : {db db' : Db} → Step db db' → Moves db db'
Step-Moves (creates db db' user_id offer_id qty fresh c e) =
    After-ok (Moves db) _ c db' (create_tx-Moves user_id offer_id qty fresh db) e
Step-Moves (records_intent db id ref) = payment-Moves db id _ _
Step-Moves (compensates db c s) = compensate_failed_intent-Moves c db
Step-Moves (cancels db db' snapshot now was s e) =
    After-ok (Moves db) _ was db' (cancel_tx-Moves snapshot now db) e
Step-Moves (fans_out db offer_id s t read) = fan_out_one-Moves offer_id s db
Step-Moves (redeems db db' by snapshot o at answer s e) =
    After-ok (Moves db) _ answer db' (redeem_tx-Moves by snapshot o at db) e
Step-Moves (logs_event db k) = same_rows db _ refl
Step-Moves (settles db now event) = settle_tx-Moves now event db
Step-Moves (marks_no_show db id) = mark_no_show-Moves id db
Step-Moves (claims_refund db id r) = payment-Moves db id _ _
Step-Moves (unclaims_refund db id r) = payment-Moves db id _ _
Step-Moves (refunds db call faults id oid amount reason by from r) =
    refund_for_cancellation-Moves call faults id oid amount reason by from db
Step-Moves (edits_offer db id guard f k) = same_rows db _ refl
Step-Moves (adds_offer db o a b c) = same_rows db _ refl
Step-Moves (administers db stores merchants) = same_rows db _ refl

-- Whatever the services and the merchants do, in whatever order, a reservation that is in the table
-- stays in it, under the same identifier, for the same user, offer, quantity and price, and its
-- status only follows transitions of the status table.
pub Reach-Evolves :
    (db db' : Db) (id : ℕ) (r : Reservation)
    → Reach db db'
    → find_reservation id db ≡ some r
    → (r' : Reservation) × (find_reservation id db' ≡ some r')
      × IsSameOrder r r'
      × Reaches r.status r'.status
Reach-Evolves db _ id r here e = (r, e, ground arith, stay _)
Reach-Evolves db _ id r (next p s) e =
    let (r1, e1, o1, s1) = Reach-Evolves db _ id r p e in
    let (r2, e2, o2, s2) = Moves-Evolves (Step-Moves s) id r1 e1 in
    (r2, e2, ground arith, Reaches-trans s1 s2)
