-- ===== src/Market/Reservations/Create/Compensation.antt =====
-- reservations.service.ts, `compensateFailedIntent` right after the transaction that it undoes.
use kurtar.Prelude.{
  ℕ, ◌+◌, ◌-◌, ◌<◌, ◌≡◌, refl, sym, ap, ◌∙◌, true, some, [], ◌∷◌, ◌==◌, ltb, leb, ok, ◌&&◌,
  if◌then◌else◌, arith, Bool-cases, inl, inr, ==_refl,
}
use kurtar.Status.{same}
use kurtar.Status.Reservation.{expired}
use kurtar.Status.Offer as OfferTable
use kurtar.Status.Offer.{OfferStatus, published, sold_out}
use kurtar.Market.Fanout.{status_in}
use kurtar.Market.Rows.{find}
use kurtar.Market.Rows.Laws.{updated, found-matched}
use kurtar.Market.Rows.Compose.{find-write_same, matched-write}
use kurtar.Market.State.{
  Db, Offer, Reservation, offer_key, reservation_key, find_reservation, find_offer,
  write_reservation, reservation_matched, payment_in, set_payment_status, set_status, intent,
  failed,
}
use kurtar.Market.Stock.{claim, can_claim, claimed, release, can_release, released}
use kurtar.Market.Reservations.Create.{
  Fresh, Committed, create_tx, new_reservation, compensate_failed_intent, expirable_from,
}
use kurtar.Market.Reservations.Create.Outcomes.{IsCommitted, create_tx-IsCommitted}

-- What is left of the reservation: expired, with its payment failed.
abbrev undone : Reservation → Reservation
undone r = set_status expired (set_payment_status failed r)

published-only : (s : OfferStatus) → same OfferTable.machine s published ≡ true → s ≡ published
published-only s h = ground arith

offer-eq :
    (o : Offer) (n : ℕ) (s : OfferStatus)
    → n ≡ o.qty_reserved
    → s ≡ o.status
    → record o { qty_reserved = n; status = s } ≡ o
offer-eq o n s p q = rw (p, q)

status-back :
    (s : OfferStatus) (reserved qty total : ℕ)
    → 0 < qty
    → s ≡ published
    → leb (reserved + qty) total ≡ true
    → let full = if reserved + qty == total then sold_out else s in
      (if same OfferTable.machine full sold_out && ltb (reserved + qty - qty) total
        then published
        else full)
      ≡ s
status-back s reserved qty total some_bags p room = elim (Bool-cases (reserved + qty == total)) [
  | inl e ↦
      let less : ltb (reserved + qty - qty) total ≡ true = ground arith in rw (e, less) (sym p)
  | inr e ↦ rw (e, p)
]

-- Releasing just after claiming gives the offer back as it was.
claim-release :
    (db : Db) (qty : ℕ) (o : Offer)
    → 0 < qty
    → can_claim db qty o ≡ true
    → updated (can_release qty) (released qty) (updated (can_claim db qty) (claimed qty) o) ≡ o
claim-release db qty o some_bags c =
    let status : o.status ≡ published = published-only o.status (ground arith) in
    let room : leb (o.qty_reserved + qty) o.qty_total ≡ true = ground arith in
    let enough : can_release qty (claimed qty o) ≡ true = ground arith in
    rw (c, enough)
      (offer-eq o _ _ (omega arith)
        (status-back o.status o.qty_reserved qty o.qty_total some_bags status room))

module _ (user_id offer_id qty : ℕ) (fresh : Fresh) (db : Db) (c : Committed) (db' : Db)
    (k : IsCommitted user_id offer_id qty fresh db c db') where
  abbrev row : Reservation
  row = new_reservation user_id offer_id k.offer qty fresh

  row-found : find_reservation fresh.id db' ≡ some row
  unfolding find
  row-found = rw k.same_db (rw (==_refl fresh.id))

  abbrev compensated : Db
  compensated = release offer_id qty (
      write_reservation fresh.id (status_in expirable_from) (set_status expired)
        (write_reservation fresh.id (payment_in (intent ∷ [])) (set_payment_status failed) db'))

  compensate-runs : compensate_failed_intent c db' ≡ compensated
  unfolding compensate_failed_intent
  compensate-runs =
      let m : reservation_matched fresh.id (payment_in (intent ∷ [])) db' ≡ true =
        found-matched reservation_key fresh.id (payment_in (intent ∷ [])) db'.reservations row
          row-found in
      let n =
        matched-write reservation_key fresh.id (payment_in (intent ∷ [])) (status_in expirable_from)
          (set_payment_status failed) db'.reservations row (λ _. refl) row-found in
      rw (k.same_committed, m, n)

  compensate_failed_intent-restores :
      0 < qty
      → (find_offer offer_id (compensate_failed_intent c db') ≡ find_offer offer_id db)
        × (find_reservation c.reservation_id (compensate_failed_intent c db')
            ≡ some (undone (new_reservation user_id offer_id k.offer qty fresh)))
  unfolding release claim
  compensate_failed_intent-restores some_bags =
      let first =
        find-write_same offer_key offer_id (can_claim db qty) (claimed qty) db.offers k.offer
          (λ _. refl) k.found in
      let second =
        find-write_same offer_key offer_id (can_release qty) (released qty)
          (claim offer_id qty db).1.offers _ (λ _. refl) first in
      let r1 =
        find-write_same reservation_key fresh.id (payment_in (intent ∷ []))
          (set_payment_status failed) db'.reservations row (λ _. refl) row-found in
      let r2 =
        find-write_same reservation_key fresh.id (status_in expirable_from) (set_status expired)
          (write_reservation fresh.id (payment_in (intent ∷ [])) (set_payment_status failed)
            db').reservations
          _ (λ _. refl) r1 in
      let same_offers : db'.offers ≡ (claim offer_id qty db).1.offers =
        ap (λ d. d.offers) k.same_db in
      (
        rw compensate-runs (
            rw same_offers (
              second ∙ ap some (claim-release db qty k.offer some_bags k.claimable) ∙ sym k.found)),
        rw (compensate-runs, k.same_committed) r2,
      )

-- When the transaction of `create` has committed at least one bag and nothing ran in between, the
-- compensation of a failed payment intent gives the offer back exactly as it was before the
-- transaction, and leaves the reservation expired with its payment failed.
pub compensate_failed_intent-undoes :
    (user_id offer_id qty : ℕ) (fresh : Fresh) (db : Db) (c : Committed) (db' : Db)
    → 0 < qty
    → create_tx user_id offer_id qty fresh db ≡ ok (c, db')
    → (find_offer offer_id (compensate_failed_intent c db') ≡ find_offer offer_id db)
      × (r : Reservation) × (find_reservation c.reservation_id (compensate_failed_intent c db')
          ≡ some r)
      × (r.status ≡ expired)
      × (payment_in (failed ∷ []) r ≡ true)
compensate_failed_intent-undoes user_id offer_id qty fresh db c db' some_bags e =
    let k = create_tx-IsCommitted user_id offer_id qty fresh db c db' e in
    let (same_offer, found) =
      compensate_failed_intent-restores user_id offer_id qty fresh db c db' k some_bags in
    (same_offer, undone (new_reservation user_id offer_id k.offer qty fresh), found, refl, refl)
