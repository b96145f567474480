-- ===== src/Examples/Payments.antt =====
-- The theorems on whole methods, at the day's databases, with a provider that answers.
use kurtar.Prelude.{
  ℕ, ◌+◌, ◌≡◌, ◌≤◌, ◌<◌, ◌↔◌, ◌⊎◌, refl, true, false, some, [], ◌∷◌, Result, ok, err, arith, length,
}
use kurtar.Status.Reservation.{expired, no_show, cancelled_by_user, pending_payment}
use kurtar.Market.Rows.{find, write, matched, select}
use kurtar.Market.State.{
  Db, Offer, Payment, PaymentStatus, RefundReason, ActorType, Reservation, find_offer,
  find_reservation, payment_in, failed, not_refundable, set_status,
}
use kurtar.Market.Stock.{claim, release, is_approved}
use kurtar.Market.Refunds.{
  RefundCall, Faults, refund_redeemed, succeeded, refused, refund_payment, refund_claimed,
  refund_for_cancellation, record_refund,
}
use kurtar.Market.Refunds.Requests.{asked}
use kurtar.Market.Refunds.Once.{refund_redeemed-once}
use kurtar.Market.Refunds.Retries.{refund_redeemed-retries}
use kurtar.Market.Reservations.Create.{
  Committed, IntentCall, create, create_tx, create_with_retry, start_payment, insert_reservation,
  new_payment, compensate_failed_intent,
}
use kurtar.Market.Reservations.Create.Compensation.{compensate_failed_intent-undoes}
use kurtar.Market.Reservations.Create.Whole.{create-stock}
use kurtar.Market.Reservations.Create.Approval.{IsOnSale, create_tx_iff}
use kurtar.Market.Reservations.Cancel.{cancel, cancel_tx, cancel_from}
use kurtar.Market.Reservations.Cancel.Outcomes.{cancelled_db}
use kurtar.Market.Reservations.Cancel.Whole.{cancel-decides}
use kurtar.Market.Reservations.Redeem.{by_consumer, redeem, redeem_tx, may_redeem}
use kurtar.Market.Reservations.Redeem.Outcomes.{redeem-decides, redeemed_db}
use kurtar.Market.Settle.{
  settle, settle_tx, settle_found, settle_success, expire_and_release, find_payment, confirmed_now,
  duplicate,
}
use kurtar.Market.Settle.Replay.{settle-replay}
use kurtar.Market.Sweeper.{QueryStatus, paid_at_provider, sweep_one, sweep_once, is_uncollected}
use kurtar.Market.Fanout.{cancel_all_for_offer}
use kurtar.Market.Coherence.{IsCoherent}
use kurtar.Market.Moves.{Reaches, progress}
use kurtar.Market.History.{Reach, Reach-trans, empty, here, next, settles}
use kurtar.Market.History.Fanout.{cancel_all_for_offer_advances}
use kurtar.Market.History.Payments.{settle_tx-confirms}
use kurtar.Market.History.Settled.{sweep_one-decides}
use kurtar.Market.History.Swept.{IsUncollected, sweep_once-marks, sweep_once_complete}
use kurtar.Examples.Day.{
  offer, offered, sold_out, paid_event, cancelled_once, collected, fresh, confirmed_row,
  confirmed_found, redeemed_row, collected_found, first_row, sold_out-Reach, committed_first,
  reserved, reserved_eq, paid_for-Reach, cancelled_once-Reach,
}

-- A provider that takes every refund.
abbrev refund_call : RefundCall
refund_call oid cents = ok (oid + 9000)

abbrev no_faults : Faults
no_faults = record {
  failed_row = false;
  books = false;
  fallback_row = false;
  fallback_payment = false;
  unclaim = false;
}

abbrev offer_left : Offer
offer_left = record offer { qty_reserved = 2 }

left_found : find_offer 1 cancelled_once ≡ some offer_left
unfolding cancel_tx cancel_from release create_tx claim is_approved insert_reservation settle_tx
    settle_found settle_success expire_and_release find_payment find write matched
left_found = refl

redeem-decides_example : redeem (by_consumer 5) 10 20500000 21000000 cancelled_once ≡ (
  ok (some 21000000),
  redeemed_db (by_consumer 5) confirmed_row offer_left 21000000 cancelled_once,
)
unfolding may_redeem
redeem-decides_example =
    redeem-decides (by_consumer 5) 10 20500000 21000000 cancelled_once confirmed_row offer_left
      confirmed_found left_found

first_paid : find_payment 1000 sold_out.reservations ≡ some (first_row, new_payment (fresh 0) 10000)
unfolding create_tx claim is_approved insert_reservation find_payment find write matched
first_paid = refl

settle_tx-confirms_example :
    ((settle_tx 10000000 paid_event sold_out).0 ≡ confirmed_now)
    × (find_reservation 10 (settle_tx 10000000 paid_event sold_out).1 ≡ some confirmed_row)
settle_tx-confirms_example =
    settle_tx-confirms sold_out 10000000 paid_event first_row (new_payment (fresh 0) 10000)
      sold_out-Reach first_paid refl refl refl

compensate_failed_intent-undoes_example :
    (find_offer 1 (compensate_failed_intent committed_first reserved) ≡ find_offer 1 offered)
    × (r : Reservation) × (find_reservation 10 (compensate_failed_intent committed_first reserved)
        ≡ some r)
    × (r.status ≡ expired)
    × (payment_in (failed ∷ []) r ≡ true)
compensate_failed_intent-undoes_example =
    compensate_failed_intent-undoes 5 1 2 (fresh 0) offered committed_first reserved (omega arith)
      reserved_eq

-- The payment of user 5, once it is paid.
abbrev first_payment : Payment
first_payment = record (new_payment (fresh 0) 10000) {
  status = PaymentStatus.paid;
  paid_at = some 10000000;
}

abbrev refunded_once : Db
refunded_once = (refund_redeemed refund_call no_faults 10 collected).1

refunded_eq :
    refund_redeemed refund_call no_faults 10 collected
    ≡ ((ok (succeeded 10000), asked first_payment), refunded_once)
unfolding refund_redeemed refund_payment refund_claimed refund_for_cancellation record_refund
    redeem_tx cancel_tx cancel_from release create_tx claim is_approved insert_reservation settle_tx
    settle_found settle_success expire_and_release find_payment find write matched
refunded_eq = refl

refund_redeemed-once_example :
    (asked first_payment ≡ asked first_payment)
    × (refund_redeemed refund_call no_faults 10 refunded_once
        ≡ ((err not_refundable, []), refunded_once))
refund_redeemed-once_example =
    refund_redeemed-once refund_call refund_call no_faults no_faults 10 10000 redeemed_row
      first_payment (asked first_payment) collected refunded_once collected_found refl refunded_eq

-- A provider that refuses every payment and refund.
abbrev refusing : RefundCall
refusing oid cents = err 3

abbrev refused_once : Db
refused_once = (refund_redeemed refusing no_faults 10 collected).1

refused_eq :
    refund_redeemed refusing no_faults 10 collected
    ≡ ((ok (refused 3), asked first_payment), refused_once)
unfolding refund_redeemed refund_payment refund_claimed refund_for_cancellation record_refund
    redeem_tx cancel_tx cancel_from release create_tx claim is_approved insert_reservation settle_tx
    settle_found settle_success expire_and_release find_payment find write matched
refused_eq = refl

refund_redeemed-retries_example :
    (asked first_payment ≡ asked first_payment)
    × (find_reservation 10 refused_once ≡ some redeemed_row)
    × ((refund_redeemed refusing no_faults 10 refused_once).0.1 ≡ asked first_payment)
refund_redeemed-retries_example =
    refund_redeemed-retries refusing no_faults 10 3 redeemed_row first_payment (asked first_payment)
      collected refused_once collected_found refl refl refused_eq

cancel-decides_example : cancel refund_call no_faults 5 10 11000000 cancelled_once ≡ (
  (ok cancelled_by_user, asked first_payment),
  (refund_for_cancellation refund_call no_faults 10 1000 10000 RefundReason.user_cancel
      ActorType.consumer PaymentStatus.paid
      (cancelled_db confirmed_row cancelled_once)).1,
)
cancel-decides_example =
    cancel-decides refund_call no_faults 10 11000000 confirmed_row first_payment cancelled_once
      confirmed_found refl

abbrev no_intents : IntentCall
no_intents oid cents key = err 3

offer_found : find_offer 1 offered ≡ some offer
unfolding find
offer_found = refl

create-stock_example : find_offer 1 (create no_intents false 5 1 2 fresh offered).1 ≡ some offer
unfolding create create_with_retry start_payment compensate_failed_intent create_tx claim
    is_approved insert_reservation find write matched
create-stock_example =
    create-stock no_intents false 5 1 2 fresh offer offered (omega arith) offer_found

create_tx_iff_example :
    ((result : Committed × Db) × (create_tx 5 1 2 (fresh 0) offered ≡ ok result))
    ↔ ((o : Offer) × (find_offer 1 offered ≡ some o) × IsOnSale offered 2 o)
create_tx_iff_example = create_tx_iff 5 1 2 (fresh 0) offered refl refl

abbrev query : ℕ → Result ℕ QueryStatus
query oid = ok (paid_at_provider (some 10000))

sweep_one-decides_example :
    find_reservation 10 (sweep_one query 10000000 88 1000 10000 sold_out).1 ≡ some confirmed_row
unfolding create_tx find matched is_approved write
sweep_one-decides_example =
    sweep_one-decides query (paid_at_provider (some 10000)) 10000000 88 1000 10000 first_row
      (new_payment (fresh 0) 10000) sold_out sold_out-Reach refl refl first_paid refl

abbrev day_end-Reach : Reach empty cancelled_once
day_end-Reach = Reach-trans paid_for-Reach cancelled_once-Reach

first_due : IsUncollected 40000000 3600000 cancelled_once confirmed_row
first_due = record {
  was_confirmed = refl;
  offer = offer_left;
  offer_found = left_found;
  over = omega arith;
}

sweep_once-marks_example :
    (find_reservation 10 (sweep_once 40000000 3600000 cancelled_once).1 ≡ some confirmed_row)
    ⊎ ((find_reservation 10 (sweep_once 40000000 3600000 cancelled_once).1
          ≡ some (set_status no_show confirmed_row))
        × IsUncollected 40000000 3600000 cancelled_once confirmed_row)
sweep_once-marks_example =
    sweep_once-marks 40000000 3600000 10 confirmed_row cancelled_once day_end-Reach confirmed_found

one_due :
    length (select (is_uncollected 40000000 3600000 cancelled_once) cancelled_once.reservations)
    ≤ 500
unfolding is_uncollected cancel_tx cancel_from release create_tx claim is_approved
    insert_reservation settle_tx settle_found settle_success expire_and_release find_payment find
    write matched
one_due = omega arith

sweep_once_complete_example :
    find_reservation 10 (sweep_once 40000000 3600000 cancelled_once).1
    ≡ some (set_status no_show confirmed_row)
sweep_once_complete_example =
    sweep_once_complete 40000000 3600000 10 confirmed_row cancelled_once confirmed_found first_due
      one_due

-- The offer is cancelled while user 5's payment comes in, just before that reservation's turn.
abbrev meanwhile : ℕ → Db → Db
meanwhile k db = (settle_tx 10000000 paid_event db).1

first_found : find_reservation 10 sold_out ≡ some first_row
unfolding create_tx claim is_approved insert_reservation find write matched
first_found = refl

cancel_all_for_offer_advances_example :
    (r' : Reservation) × (find_reservation 10 (cancel_all_for_offer meanwhile 1 sold_out).1
      ≡ some r')
    × (0 < progress r'.status)
    × Reaches pending_payment r'.status
    × IsCoherent r'
cancel_all_for_offer_advances_example =
    cancel_all_for_offer_advances meanwhile sold_out 1 10 first_row
      (λ k db. next here (settles db 10000000 paid_event)) sold_out-Reach first_found refl

settle-replay_example :
    settle 12000000 paid_event (settle 10000000 paid_event sold_out).1
    ≡ (duplicate, (settle 10000000 paid_event sold_out).1)
settle-replay_example = settle-replay 10000000 12000000 paid_event paid_event sold_out refl
