-- ===== src/Market/History/Invariants.antt =====
-- What holds of the database after any history that starts empty.
use kurtar.Prelude.{ℕ, ◌≡◌, ◌≢◌, some}
use kurtar.Market.Rows.Laws.{find-All}
use kurtar.Market.State.{Db, Offer, Reservation, find_offer, find_reservation, reservation_key}
use kurtar.Market.Settle.{WebhookEvent, SettleOutcome, settle_tx}
use kurtar.Market.Conservation.{IsStocked}
use kurtar.Market.Coherence.{IsCoherent}
use kurtar.Market.Coherence.Settle.{settle_tx-AllCoherent}
use kurtar.Market.History.{Reach, empty}
use kurtar.Market.History.Soundness.{Reach-IsSound, empty-IsSound}

-- After any history that starts from the empty database, an offer that is found has as many bags
-- reserved as the pending, confirmed, redeemed and no-show reservations for it hold together, as
-- many redeemed as its redeemed reservations hold, and no more reserved than it has in total.
pub reachable-IsStocked :
    (db : Db) (offer_id : ℕ) (o : Offer)
    → Reach empty db
    → find_offer offer_id db ≡ some o
    → IsStocked db.reservations offer_id o
reachable-IsStocked db offer_id o h e = (Reach-IsSound empty-IsSound h).conserved offer_id o e

-- After any history that starts from the empty database, a reservation that is found has a payment,
-- for its total, which is its unit price times its quantity; the payment is live while the
-- reservation is pending, paid while it is confirmed, failed when it expired, failed, paid or being
-- refunded when the user cancelled it, and paid or being refunded in the other ends; and it has a
-- time of redemption exactly when it is redeemed.
pub reachable-IsCoherent :
    (db : Db) (id : ℕ) (r : Reservation)
    → Reach empty db
    → find_reservation id db ≡ some r
    → IsCoherent r
reachable-IsCoherent db id r h e =
    find-All reservation_key IsCoherent id db.reservations r
      (Reach-IsSound empty-IsSound h).coherent e

-- After any history that starts from the empty database, settling an event does not report
-- `orphaned_success`: no payment turns paid whose reservation cannot be confirmed with it.
pub settle_tx-not_orphaned :
    (db : Db) (now : ℕ) (event : WebhookEvent)
    → Reach empty db
    → (settle_tx now event db).0 ≢ SettleOutcome.orphaned_success
settle_tx-not_orphaned db now event h =
    (settle_tx-AllCoherent now event db (Reach-IsSound empty-IsSound h).coherent).1
