-- ===== src/Status/Offer.antt =====
-- backend/src/modules/offers/offer-transitions.ts.
use kurtar.Prelude.{ℕ, List, [], ◌∷◌}
use kurtar.Status.{Machine}

pub data OfferStatus : Type 0 where
  draft scheduled published sold_out closed cancelled : OfferStatus

abbrev code : OfferStatus → ℕ
code draft = 0
code scheduled = 1
code published = 2
code sold_out = 3
code closed = 4
code cancelled = 5

abbrev pub offer_transitions : OfferStatus → List OfferStatus
offer_transitions draft = scheduled ∷ published ∷ cancelled ∷ []
offer_transitions scheduled = published ∷ cancelled ∷ []
offer_transitions published = closed ∷ cancelled ∷ []
offer_transitions sold_out = closed ∷ cancelled ∷ []
offer_transitions closed = []
offer_transitions cancelled = []

abbrev pub machine : Machine OfferStatus
machine = record {
  code = code;
  keys = draft ∷ scheduled ∷ published ∷ sold_out ∷ closed ∷ cancelled ∷ [];
  next = offer_transitions;
}
