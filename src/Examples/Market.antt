-- ===== src/Examples/Market.antt =====
-- The theorems on reservations, at the day's databases.
use kurtar.Prelude.{◌≢◌, ◌≡◌, refl, false, some, ok, err}
use kurtar.Status.Reservation.{confirmed, cancelled_by_user}
use kurtar.Status.Offer.{OfferStatus}
use kurtar.Market.Rows.{find, write, matched}
use kurtar.Market.State.{
  Offer, Reservation, find_reservation, find_offer, not_cancellable, not_redeemable,
}
use kurtar.Market.Stock.{claim, release, is_approved}
use kurtar.Market.Reservations.Create.{create_tx, insert_reservation}
use kurtar.Market.Reservations.Cancel.{cancel_tx, cancel_from}
use kurtar.Market.Reservations.Cancel.Outcomes.{cancel_tx-decides, cancelled, cancelled_db}
use kurtar.Market.Reservations.Redeem.{by_consumer, by_merchant, redeem_tx}
use kurtar.Market.Reservations.Redeem.Outcomes.{redeem_tx-again}
use kurtar.Market.Settle.{
  SettleOutcome, settle_tx, settle_found, settle_success, expire_and_release, find_payment,
}
use kurtar.Market.Conservation.{IsStocked}
use kurtar.Market.Coherence.{IsCoherent}
use kurtar.Market.Moves.{IsSameOrder, Reaches}
use kurtar.Market.History.Invariants.{
  reachable-IsStocked, reachable-IsCoherent, settle_tx-not_orphaned,
}
use kurtar.Market.History.Moves.{Reach-Evolves}
use kurtar.Market.History.Orders.{Reach-final}
use kurtar.Market.History.Cancelled.{cancel_tx-final}
use kurtar.Examples.Day.{
  offer, sold_out, paid_event, paid_for, first_row, second_row, cancelled_once, collected,
  cancelled_eq, collected_eq, confirmed_row, second_found, confirmed_found, sold_out-Reach,
  paid_for-Reach, collected-Reach,
}

-- The offer as it stands sold out.
abbrev full_offer : Offer
full_offer = record offer { qty_reserved = 3; status = OfferStatus.sold_out }

full_found : find_offer 1 sold_out ≡ some full_offer
unfolding create_tx claim is_approved insert_reservation find write matched
full_found = refl

reachable-IsStocked_example : IsStocked sold_out.reservations 1 full_offer
reachable-IsStocked_example = reachable-IsStocked sold_out 1 full_offer sold_out-Reach full_found

reachable-IsCoherent_example : IsCoherent second_row
reachable-IsCoherent_example =
    reachable-IsCoherent paid_for 11 second_row paid_for-Reach second_found

settle_tx-not_orphaned_example :
    (settle_tx 10000000 paid_event sold_out).0 ≢ SettleOutcome.orphaned_success
settle_tx-not_orphaned_example = settle_tx-not_orphaned sold_out 10000000 paid_event sold_out-Reach

Reach-Evolves_example :
    (r' : Reservation) × (find_reservation 10 collected ≡ some r')
    × IsSameOrder confirmed_row r'
    × Reaches confirmed r'.status
Reach-Evolves_example =
    Reach-Evolves cancelled_once collected 10 confirmed_row collected-Reach confirmed_found

abbrev cancelled_row : Reservation
cancelled_row = cancelled second_row

cancelled_found : find_reservation 11 cancelled_once ≡ some cancelled_row
unfolding cancel_tx cancel_from release create_tx claim is_approved insert_reservation settle_tx
    settle_found settle_success expire_and_release find_payment find write matched
cancelled_found = refl

Reach-final_example :
    (r' : Reservation) × (find_reservation 11 collected ≡ some r') × (r'.status ≡ cancelled_by_user)
Reach-final_example =
    Reach-final cancelled_once collected 11 cancelled_row collected-Reach cancelled_found refl

cancel_tx-decides_example :
    cancel_tx second_row 11000000 paid_for ≡ ok (false, cancelled_db second_row paid_for)
cancel_tx-decides_example = cancel_tx-decides 11000000 second_row second_row paid_for second_found

cancel_tx-final_example :
    (cancel_tx second_row 12000000 collected ≡ err not_cancellable)
    × (redeem_tx (by_consumer 6) second_row offer 22000000 collected
        ≡ err (not_redeemable cancelled_by_user))
cancel_tx-final_example =
    cancel_tx-final second_row second_row 11000000 12000000 22000000 false (by_consumer 6) offer
      paid_for cancelled_once collected second_found cancelled_eq collected-Reach

redeem_tx-again_example :
    redeem_tx (by_merchant 9 1) first_row offer 25000000 collected ≡ ok (some 21000000, collected)
redeem_tx-again_example =
    redeem_tx-again (by_consumer 5) (by_merchant 9 1) first_row first_row confirmed_row offer offer
      21000000 25000000 (some 21000000) cancelled_once collected confirmed_found refl collected_eq
