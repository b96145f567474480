-- ===== src/Market/Sweeper.antt =====
-- The two sweepers: backend/src/modules/reservations/no-show-sweeper.service.ts, and
-- backend/src/modules/payments/payments-sweeper.service.ts for one stale payment.
use mathlib.Core.List.{reverse}
use kurtar.Prelude.{
  ℕ, zero, suc, ◌+◌, ◌*◌, Bool, true, false, ◌&&◌, Option, none, some, List, [], ◌∷◌, ltb,
  if◌then◌else◌, Result, ok, err,
}
use kurtar.Status.{allowed_from_statuses_for}
use kurtar.Status.Reservation.{ReservationStatus, machine, no_show}
use kurtar.Market.Rows.{find, write, matched, select}
use kurtar.Market.State.{
  Db, Offer, Reservation, find_offer, write_reservation, reservation_matched, set_status,
}
use kurtar.Market.Fanout.{status_in}
use kurtar.Market.Settle.{SettleOutcome, settle}

abbrev pub no_show_grace_ms : ℕ
no_show_grace_ms = 60 * 60 * 1000

abbrev pub no_show_batch_limit : ℕ
no_show_batch_limit = 500

abbrev pub no_show_from : List ReservationStatus
no_show_from = allowed_from_statuses_for machine no_show

-- `offer: { pickupEndAt: { lt: now - grace } }`.
abbrev pub closed_before : ℕ → ℕ → Option Offer → Bool
closed_before now grace none = false
closed_before now grace (some o) = ltb (o.pickup_end_at + grace) now

unfoldable pub is_uncollected : ℕ → ℕ → Db → Reservation → Bool
unfolding find
is_uncollected now grace db r =
    status_in no_show_from r && closed_before now grace (find_offer r.offer_id db)

abbrev pub take {ℓ} : {A : Type ℓ} → ℕ → List A → List A
take zero xs = []
take (suc n) [] = []
take (suc n) (x ∷ xs) = x ∷ take n xs

-- `findMany` with `orderBy: { createdAt: "asc" }`: the table has its newest row first.
unfoldable pub uncollected : ℕ → ℕ → Db → List Reservation
unfolding is_uncollected
uncollected now grace db =
    take no_show_batch_limit (reverse (select (is_uncollected now grace db) db.reservations))

-- One guarded update of the loop.
unfoldable pub mark_no_show : ℕ → Db → Bool × Db
unfolding write matched find
mark_no_show id db = (
  reservation_matched id (status_in no_show_from) db,
  write_reservation id (status_in no_show_from) (set_status no_show) db,
)

unfoldable pub mark_all : List Reservation → Db → ℕ × Db
unfolding mark_no_show
mark_all [] db = (0, db)
mark_all (r ∷ rs) db =
    let (claimed, db1) = mark_no_show r.id db in
    let (n, db2) = mark_all rs db1 in (if claimed then 1 + n else n, db2)

-- `sweepOnce` of the no-show sweeper: how many it marked, and the database.
unfoldable pub sweep_once : ℕ → ℕ → Db → ℕ × Db
unfolding uncollected mark_all
sweep_once now grace db = mark_all (uncollected now grace db) db

-- `facade.queryStatus`: whether the provider has the payment, with the amount if it tells it.
pub data QueryStatus : Type 0 where
  paid_at_provider : Option ℕ → QueryStatus
  not_paid : QueryStatus

abbrev pub or_else : Option ℕ → ℕ → ℕ
or_else none n = n
or_else (some m) n = m

-- `sweepOne` of the payments sweeper; `event_id` is the fresh `sweep:…` identifier.
unfoldable pub sweep_one :
    (ℕ → Result ℕ QueryStatus) → ℕ → ℕ → ℕ → ℕ → Db → Option SettleOutcome × Db
unfolding settle
sweep_one query now event_id merchant_oid fallback_amount_cents db = elim (query merchant_oid) [
  | err _ ↦ (none, db)
  | ok status ↦ elim status [
    | paid_at_provider amount ↦
        let (outcome, db1) =
          settle now
            (record {
              merchant_oid = merchant_oid;
              is_success = true;
              total_cents = or_else amount fallback_amount_cents;
              external_event_id = event_id;
            })
            db in
        (some outcome, db1)
    | not_paid ↦
        let (outcome, db1) =
          settle now
            (record {
              merchant_oid = merchant_oid;
              is_success = false;
              total_cents = fallback_amount_cents;
              external_event_id = event_id;
            })
            db in
        (some outcome, db1)
  ]
]
