-- ===== src/Market/History.antt =====
-- Everything that happens to the database: each transaction of the services as one step (a fan-out
-- has one for each candidate's turn), in any order, with its reads taken at any earlier time, and
-- what others do to offers, stores and merchants between them.
pub mod Settled
pub mod Swept
pub mod Payments
pub mod Cancelled
pub mod Orders
pub mod Invariants
pub mod Soundness
pub mod Moves
pub mod Fanout
use kurtar.Prelude.{ℕ, ◌≡◌, refl, ◌≢◌, Bool, true, Option, List, [], ◌∷◌, Result, ok, err, All}
use kurtar.Status.{includes}
use kurtar.Status.Reservation.{machine}
use kurtar.Market.Rows.{write}
use kurtar.Market.Rows.Laws.{IsUnique}
use kurtar.Market.State.{
  Db, Offer, Store, Merchant, Reservation, Payment, PaymentStatus, paid, refund_pending,
  RefundReason, ActorType, Event, offer_key, reservation_key, map_payment, write_reservation,
  find_offer,
}
use kurtar.Market.Refunds.{
  RefundCall, Faults, refund_for_cancellation, claim_payment, unclaim_payment,
}
use kurtar.Market.Reservations.Create.{Fresh, Committed, create_tx, compensate_failed_intent}
use kurtar.Market.Reservations.Cancel.{cancel_tx}
use kurtar.Market.Reservations.Redeem.{Redeemer, redeem_tx}
use kurtar.Market.Fanout.{fan_out_one, is_candidate}
use kurtar.Market.Moves.{IsRead}
use kurtar.Market.Settle.{WebhookEvent, settle_tx}
use kurtar.Market.Sweeper.{mark_no_show}
use kurtar.Market.Conservation.{IsConserved, IsSnapshot}
use kurtar.Market.Coherence.{AllCoherent}
use kurtar.Market.Coherence.Refunds.{IsRefundable}

-- What an edit of an offer outside these services leaves alone.
pub record KeepsCounters (f : Offer → Offer) : Type 0 where
  pub id : (o : Offer) → (f o).id ≡ o.id
  pub reserved : (o : Offer) → (f o).qty_reserved ≡ o.qty_reserved
  pub redeemed : (o : Offer) → (f o).qty_redeemed ≡ o.qty_redeemed
  pub total : (o : Offer) → (f o).qty_total ≡ o.qty_total

pub data Step : Db → Db → Type 0 where
  creates :
      (db db' : Db) (user_id offer_id qty : ℕ) (fresh : Fresh) (c : Committed)
      → create_tx user_id offer_id qty fresh db ≡ ok (c, db')
      → Step db db'
  -- The best-effort write of `pspPaymentId`.
  records_intent :
      (db : Db) (id ref : ℕ)
      → Step db (
          write_reservation id
            (λ _. true)
            (map_payment (λ p. record p { psp_payment_id = Option.some ref }))
            db)
  compensates :
      (db : Db) (c : Committed)
      → IsSnapshot db c.reservation_id c.offer_id c.qty
      → Step db (compensate_failed_intent c db)
  cancels :
      (db db' : Db) (snapshot : Reservation) (now : ℕ) (was_confirmed : Bool)
      → IsSnapshot db snapshot.id snapshot.offer_id snapshot.qty
      → cancel_tx snapshot now db ≡ ok (was_confirmed, db')
      → Step db db'
  -- One turn of a fan-out, on the candidate as it was read before the loop.
  fans_out :
      (db : Db) (offer_id : ℕ) (candidate : Reservation)
      → is_candidate offer_id candidate ≡ true
      → IsRead db candidate
      → Step db (fan_out_one offer_id candidate db).1
  redeems :
      (db db' : Db) (by : Redeemer) (snapshot : Reservation) (o : Offer) (attempted_at : ℕ)
      (answer : Option ℕ)
      → IsSnapshot db snapshot.id snapshot.offer_id snapshot.qty
      → redeem_tx by snapshot o attempted_at db ≡ ok (answer, db')
      → Step db db'
  logs_event :
      (db : Db) (external_event_id : ℕ)
      → Step db (record db { webhook_events = external_event_id ∷ db.webhook_events })
  settles : (db : Db) (now : ℕ) (event : WebhookEvent) → Step db (settle_tx now event db).1
  marks_no_show : (db : Db) (id : ℕ) → Step db (mark_no_show id db).1
  claims_refund : (db : Db) (id : ℕ) → IsRefundable db id → Step db (claim_payment id db)
  unclaims_refund : (db : Db) (id : ℕ) → IsRefundable db id → Step db (unclaim_payment id db)
  refunds :
      (db : Db) (call : RefundCall) (faults : Faults) (id merchant_oid amount_cents : ℕ)
      (reason : RefundReason) (by : ActorType) (from : PaymentStatus)
      → IsRefundable db id
      → Step db
          (refund_for_cancellation call faults id merchant_oid amount_cents reason by from db).1
  -- A merchant edits, publishes, closes or cancels an offer, or adds one that nobody has reserved.
  edits_offer :
      (db : Db) (id : ℕ) (guard : Offer → Bool) (f : Offer → Offer)
      → KeepsCounters f
      → Step db (record db { offers = write offer_key id guard f db.offers })
  adds_offer :
      (db : Db) (o : Offer)
      → o.qty_reserved ≡ 0
      → o.qty_redeemed ≡ 0
      → All (λ (r : Reservation). r.offer_id ≢ o.id) db.reservations
      → Step db (record db { offers = o ∷ db.offers })
  -- Stores and merchants change, approvals included.
  administers :
      (db : Db) (stores : List Store) (merchants : List Merchant)
      → Step db (record db { stores = stores; merchants = merchants })

pub data Reach (start : Db) : Db → Type 0 where
  here : Reach start start
  next : {db db' : Db} → Reach start db → Step db db' → Reach start db'

pub Reach-trans : {a b c : Db} → Reach a b → Reach b c → Reach a c
Reach-trans p here = p
Reach-trans p (next q s) = next (Reach-trans p q) s

-- The invariant of the whole database.
pub record IsSound (db : Db) : Type 0 where
  pub unique : IsUnique reservation_key db.reservations
  pub conserved : IsConserved db
  pub coherent : AllCoherent db

abbrev pub empty : Db
empty = record {
  merchants = [];
  stores = [];
  offers = [];
  reservations = [];
  refunds = [];
  webhook_events = [];
  outbox = [];
}
