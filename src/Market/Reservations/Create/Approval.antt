-- ===== src/Market/Reservations/Create/Approval.antt =====
-- offer-stock.service.ts, `claim`, and `create`'s transaction: who can reserve what.
use kurtar.Prelude.{
  ℕ, ◌+◌, ◌≡◌, ◌∙◌, true, false, some, ◌∷◌, ok, ◌≤◌, leb, Option-cases, inl, inr, arith, ◌↔◌,
}
use kurtar.Status.{same}
use kurtar.Status.Offer as OfferTable
use kurtar.Status.Offer.{OfferStatus, published}
use kurtar.Status.Merchant as MerchantTable
use kurtar.Status.Merchant.{VerificationStatus, approved}
use kurtar.Market.Rows.{find, any}
use kurtar.Market.Rows.Laws.{found-matched}
use kurtar.Market.State.{Db, Offer, Store, Merchant, offer_key, find_offer}
use kurtar.Market.Stock.{claim, can_claim, is_approved}
use kurtar.Market.Reservations.Create.{
  Fresh, Committed, create_tx, insert_reservation, uses_code, uses_keys, new_reservation, committed,
}
use kurtar.Market.Reservations.Create.Outcomes.{create_tx-IsCommitted}

-- The store is found, with a merchant that is found and approved.
pub record IsAtApproved (db : Db) (store_id : ℕ) : Type 0 where
  pub store : Store
  pub store_found : find (λ (x : Store). x.id) store_id db.stores ≡ some store
  pub merchant : Merchant
  pub merchant_found : find (λ (x : Merchant). x.id) store.merchant_id db.merchants ≡ some merchant
  pub is_verified : merchant.verification_status ≡ approved

-- The offer is on sale, with room for the quantity, at a store of an approved merchant.
pub record IsOnSale (db : Db) (qty : ℕ) (o : Offer) : Type 0 where
  pub is_published : o.status ≡ published
  pub has_room : o.qty_reserved + qty ≤ o.qty_total
  pub at_approved : IsAtApproved db o.store_id

published_iff : (s : OfferStatus) → (same OfferTable.machine s published ≡ true) ↔ (s ≡ published)
published_iff s = ground arith

approved_iff :
    (s : VerificationStatus) → (same MerchantTable.machine s approved ≡ true) ↔ (s ≡ approved)
approved_iff s = ground arith

is_approved-IsAtApproved :
    (db : Db) (store_id : ℕ) → is_approved db store_id ≡ true → IsAtApproved db store_id
unfolding is_approved
is_approved-IsAtApproved db store_id h =
    elim (Option-cases (find (λ (x : Store). x.id) store_id db.stores)) [
      | inl e ↦ let bad : false ≡ true = rw (e, is_approved) at h in cc
      | inr (s, e) ↦
          elim (Option-cases (find (λ (x : Merchant). x.id) s.merchant_id db.merchants)) [
            | inl g ↦ let bad : false ≡ true = rw (e, g, is_approved) at h in cc
            | inr (m, g) ↦
                let t : same MerchantTable.machine m.verification_status approved ≡ true =
                  rw (e, g, is_approved) at h in
                record {
                  store = s;
                  store_found = e;
                  merchant = m;
                  merchant_found = g;
                  is_verified = (approved_iff m.verification_status).0 t;
                }
          ]
    ]

IsAtApproved-is_approved :
    (db : Db) (store_id : ℕ) → IsAtApproved db store_id → is_approved db store_id ≡ true
unfolding is_approved
IsAtApproved-is_approved db store_id a =
    rw (a.store_found, a.merchant_found, is_approved)
      ((approved_iff a.merchant.verification_status).1 a.is_verified)

can_claim_iff : (db : Db) (qty : ℕ) (o : Offer) → (can_claim db qty o ≡ true) ↔ IsOnSale db qty o
can_claim_iff db qty o = (
  λ h.
      let a : same OfferTable.machine o.status published ≡ true = ground arith in
      let b : leb (o.qty_reserved + qty) o.qty_total ≡ true = ground arith in
      let c : is_approved db o.store_id ≡ true = ground arith in
      record {
        is_published = (published_iff o.status).0 a;
        has_room = ground arith;
        at_approved = is_approved-IsAtApproved db o.store_id c;
      },
  λ sale.
      let a = (published_iff o.status).1 sale.is_published in
      let c = IsAtApproved-is_approved db o.store_id sale.at_approved in
      let room = sale.has_room in ground arith,
)

-- When neither the drawn code nor the drawn keys are in the table, the transaction of `create`
-- commits exactly when the offer is found, is published, has room for the quantity, and stands in a
-- store that is found with a merchant that is found and approved.
pub create_tx_iff :
    (user_id offer_id qty : ℕ) (fresh : Fresh) (db : Db)
    → any (uses_code fresh.code) db.reservations ≡ false
    → any (uses_keys fresh) db.reservations ≡ false
    → ((result : Committed × Db) × (create_tx user_id offer_id qty fresh db ≡ ok result))
      ↔ ((o : Offer) × (find_offer offer_id db ≡ some o) × IsOnSale db qty o)
unfolding create_tx insert_reservation claim
create_tx_iff user_id offer_id qty fresh db new_code new_keys = (
  λ ((c, db'), e).
      let k = create_tx-IsCommitted user_id offer_id qty fresh db c db' e in
      (k.offer, k.found, (can_claim_iff db qty k.offer).0 k.claimable),
  λ (o, e, on_sale).
      let m =
        found-matched offer_key offer_id (can_claim db qty) db.offers o e
        ∙ (can_claim_iff db qty o).1 on_sale in
      let row = new_reservation user_id offer_id o qty fresh in
      let db1 = (claim offer_id qty db).1 in
      (
        (committed row fresh, record db1 { reservations = row ∷ db.reservations }),
        rw (e, create_tx) (rw m (rw (new_code, new_keys))),
      ),
)
