-- ===== src/Status/Merchant.antt =====
-- backend/src/modules/merchants/merchant-verification-transitions.ts.
use kurtar.Prelude.{ℕ, List, [], ◌∷◌}
use kurtar.Status.{Machine}

pub data VerificationStatus : Type 0 where
  draft submitted under_review approved rejected suspended : VerificationStatus

abbrev code : VerificationStatus → ℕ
code draft = 0
code submitted = 1
code under_review = 2
code approved = 3
code rejected = 4
code suspended = 5

abbrev pub merchant_verification_transitions : VerificationStatus → List VerificationStatus
merchant_verification_transitions draft = submitted ∷ []
merchant_verification_transitions submitted = under_review ∷ approved ∷ rejected ∷ []
merchant_verification_transitions under_review = approved ∷ rejected ∷ []
merchant_verification_transitions approved = suspended ∷ []
merchant_verification_transitions rejected = []
merchant_verification_transitions suspended = []

abbrev pub machine : Machine VerificationStatus
machine = record {
  code = code;
  keys = draft ∷ submitted ∷ under_review ∷ approved ∷ rejected ∷ suspended ∷ [];
  next = merchant_verification_transitions;
}
