-- ===== src/Market/Stock.antt =====
-- backend/src/modules/reservations/offer-stock.service.ts: the two guarded updates of a daily
-- offer's counter. Each is one SQL statement, so it reads and writes the live row at once.
use kurtar.Prelude.{ℕ, ◌+◌, ◌-◌, Bool, false, ◌&&◌, none, some, ltb, leb, ◌==◌, if◌then◌else◌}
use kurtar.Status.{same}
use kurtar.Status.Offer as OfferTable
use kurtar.Status.Offer.{OfferStatus, published, sold_out}
use kurtar.Status.Merchant as MerchantTable
use kurtar.Status.Merchant.{approved}
use kurtar.Market.Rows.{find, write, matched}
use kurtar.Market.State.{Db, Offer, Store, Merchant, offer_key}

-- The `EXISTS` subquery: the offer's store belongs to an approved merchant.
unfoldable pub is_approved : Db → ℕ → Bool
unfolding find
is_approved db store_id = elim (find (λ (s : Store). s.id) store_id db.stores) [
  | none ↦ false
  | some s ↦ elim (find (λ (m : Merchant). m.id) s.merchant_id db.merchants) [
    | none ↦ false
    | some m ↦ same MerchantTable.machine m.verification_status approved
  ]
]

abbrev pub can_claim : Db → ℕ → Offer → Bool
can_claim db qty o =
    same OfferTable.machine o.status published
    && leb (o.qty_reserved + qty) o.qty_total
    && is_approved db o.store_id

abbrev pub claimed : ℕ → Offer → Offer
claimed qty o = record o {
  qty_reserved = o.qty_reserved + qty;
  status = if o.qty_reserved + qty == o.qty_total then sold_out else o.status;
}

-- Whether the claim succeeded, and the database after it.
unfoldable pub claim : ℕ → ℕ → Db → Bool × Db
claim offer_id qty db = (
  matched offer_key offer_id (can_claim db qty) db.offers,
  record db { offers = write offer_key offer_id (can_claim db qty) (claimed qty) db.offers },
)

abbrev pub can_release : ℕ → Offer → Bool
can_release qty o = leb qty o.qty_reserved

abbrev pub released : ℕ → Offer → Offer
released qty o = record o {
  qty_reserved = o.qty_reserved - qty;
  status =
      if same OfferTable.machine o.status sold_out && ltb (o.qty_reserved - qty) o.qty_total
      then published
      else o.status;
}

-- The services ignore whether the release matched.
unfoldable pub release : ℕ → ℕ → Db → Db
release offer_id qty db = record db {
  offers = write offer_key offer_id (can_release qty) (released qty) db.offers;
}
