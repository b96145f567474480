-- ===== src/Examples/Day.antt =====
-- A day of one offer: it is added, reserved, paid for, reserved again, cancelled and redeemed.
use kurtar.Prelude.{ℕ, ◌+◌, ◌≡◌, refl, true, false, some, [], ◌∷◌, Result, ok, err}
use kurtar.Status.Offer.{published}
use kurtar.Status.Merchant.{approved}
use kurtar.Status.Reservation.{ReservationStatus}
use kurtar.Market.Rows.{find, write, matched}
use kurtar.Market.State.{Db, Store, Merchant, Offer, Reservation, PaymentStatus, find_reservation}
use kurtar.Market.Stock.{claim, release, is_approved}
use kurtar.Market.Reservations.Create.{
  Fresh, Committed, create_tx, insert_reservation, committed, new_reservation, new_payment,
}
use kurtar.Market.Reservations.Cancel.{cancel_tx, cancel_from}
use kurtar.Market.Reservations.Redeem.{by_consumer, redeem_tx, set_redeemed}
use kurtar.Market.Settle.{
  WebhookEvent, settle_tx, settle_found, settle_success, expire_and_release, find_payment,
}
use kurtar.Market.History.{
  Reach, empty, here, next, administers, adds_offer, creates, settles, cancels, redeems,
}

abbrev pub store : Store
store = record { id = 1; merchant_id = 1 }

abbrev pub merchant : Merchant
merchant = record { id = 1; verification_status = approved }

-- Three bags, for pickup between 20,000,000 and 30,000,000 ms.
abbrev pub offer : Offer
offer = record {
  id = 1;
  store_id = 1;
  status = published;
  qty_total = 3;
  qty_reserved = 0;
  qty_redeemed = 0;
  pickup_start_at = 20000000;
  pickup_end_at = 30000000;
  bag_template = record {
    price_cents = 5000;
    original_value_cents_min = 12000;
    original_value_cents_max = 15000;
  };
}

abbrev pub offered : Db
offered = record empty { stores = store ∷ []; merchants = merchant ∷ []; offers = offer ∷ [] }

abbrev pub fresh : ℕ → Fresh
fresh n = record { id = 10 + n; code = 100 + n; merchant_oid = 1000 + n }

abbrev pub after {ℓ} : {E : Type ℓ} {A : Type 0} → Result E (A × Db) → Db → Db
after (ok (a, db)) before = db
after (err e) before = before

-- User 5 reserves two bags, and user 6 one.
abbrev pub reserved : Db
reserved = after (create_tx 5 1 2 (fresh 0) offered) offered

abbrev pub sold_out : Db
sold_out = after (create_tx 6 1 1 (fresh 1) reserved) reserved

abbrev pub paid_event : WebhookEvent
paid_event = record {
  merchant_oid = 1000;
  is_success = true;
  total_cents = 10000;
  external_event_id = 77;
}

abbrev pub paid_for : Db
paid_for = (settle_tx 10000000 paid_event sold_out).1

abbrev pub first_row : Reservation
first_row = new_reservation 5 1 offer 2 (fresh 0)

abbrev pub second_row : Reservation
second_row = new_reservation 6 1 offer 1 (fresh 1)

-- User 6 cancels in time; user 5 redeems.
abbrev pub cancelled_once : Db
cancelled_once = after (cancel_tx second_row 11000000 paid_for) paid_for

abbrev pub collected : Db
collected = after (redeem_tx (by_consumer 5) first_row offer 21000000 cancelled_once) cancelled_once

abbrev pub committed_first : Committed
committed_first = committed first_row (fresh 0)

abbrev pub committed_second : Committed
committed_second = committed second_row (fresh 1)

pub reserved_eq : create_tx 5 1 2 (fresh 0) offered ≡ ok (committed_first, reserved)
unfolding create_tx claim is_approved insert_reservation find write matched
reserved_eq = refl

pub sold_out_eq : create_tx 6 1 1 (fresh 1) reserved ≡ ok (committed_second, sold_out)
unfolding create_tx claim is_approved insert_reservation find write matched
sold_out_eq = refl

pub cancelled_eq : cancel_tx second_row 11000000 paid_for ≡ ok (false, cancelled_once)
unfolding cancel_tx cancel_from release create_tx claim is_approved insert_reservation settle_tx
    settle_found settle_success expire_and_release find_payment find write matched
cancelled_eq = refl

pub collected_eq :
    redeem_tx (by_consumer 5) first_row offer 21000000 cancelled_once
    ≡ ok (some 21000000, collected)
unfolding redeem_tx cancel_tx cancel_from release create_tx claim is_approved insert_reservation
    settle_tx settle_found settle_success expire_and_release find_payment find write matched
collected_eq = refl

pub offered-Reach : Reach empty offered
offered-Reach = next (next here (administers empty (store ∷ []) (merchant ∷ []))) (
    adds_offer (record empty { stores = store ∷ []; merchants = merchant ∷ [] }) offer refl refl tt)

pub sold_out-Reach : Reach empty sold_out
sold_out-Reach =
    next (next offered-Reach (creates offered reserved 5 1 2 (fresh 0) committed_first reserved_eq))
      (creates reserved sold_out 6 1 1 (fresh 1) committed_second sold_out_eq)

pub paid_for-Reach : Reach empty paid_for
paid_for-Reach = next sold_out-Reach (settles sold_out 10000000 paid_event)

-- The rows that the two reservations have become by then, and in the end.
abbrev pub confirmed_row : Reservation
confirmed_row = record first_row {
  status = ReservationStatus.confirmed;
  payment = some (record (new_payment (fresh 0) 10000) {
    status = PaymentStatus.paid;
    paid_at = some 10000000;
  });
}

abbrev pub redeemed_row : Reservation
redeemed_row = set_redeemed (by_consumer 5) 21000000 confirmed_row

pub second_found : find_reservation 11 paid_for ≡ some second_row
unfolding create_tx claim is_approved insert_reservation settle_tx settle_found settle_success
    expire_and_release find_payment find write matched
second_found = refl

pub confirmed_found : find_reservation 10 cancelled_once ≡ some confirmed_row
unfolding cancel_tx cancel_from release create_tx claim is_approved insert_reservation settle_tx
    settle_found settle_success expire_and_release find_payment find write matched
confirmed_found = refl

pub collected_found : find_reservation 10 collected ≡ some redeemed_row
unfolding redeem_tx cancel_tx cancel_from release create_tx claim is_approved insert_reservation
    settle_tx settle_found settle_success expire_and_release find_payment find write matched
collected_found = refl

pub cancelled_once-Reach : Reach paid_for cancelled_once
cancelled_once-Reach = next here (
    cancels paid_for cancelled_once second_row 11000000 false (second_row, second_found, refl, refl)
      cancelled_eq)

pub collected-Reach : Reach cancelled_once collected
collected-Reach = next here (
    redeems cancelled_once collected (by_consumer 5) first_row offer 21000000 (some 21000000)
      (confirmed_row, confirmed_found, refl, refl) collected_eq)
