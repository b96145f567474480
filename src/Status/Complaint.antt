-- ===== src/Status/Complaint.antt =====
-- backend/src/modules/complaints/complaint-transitions.ts.
use kurtar.Prelude.{ℕ, List, [], ◌∷◌}
use kurtar.Status.{Machine}

pub data ComplaintStatus : Type 0 where
  open_ merchant_responded escalated resolved : ComplaintStatus

abbrev code : ComplaintStatus → ℕ
code open_ = 0
code merchant_responded = 1
code escalated = 2
code resolved = 3

abbrev pub complaint_transitions : ComplaintStatus → List ComplaintStatus
complaint_transitions open_ = merchant_responded ∷ resolved ∷ escalated ∷ []
complaint_transitions merchant_responded = resolved ∷ escalated ∷ []
complaint_transitions escalated = resolved ∷ []
complaint_transitions resolved = []

abbrev pub machine : Machine ComplaintStatus
machine = record {
  code = code;
  keys = open_ ∷ merchant_responded ∷ escalated ∷ resolved ∷ [];
  next = complaint_transitions;
}
