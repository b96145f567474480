-- ===== src/Status/Reservation.antt =====
-- backend/src/modules/reservations/reservation-transitions.ts.
use kurtar.Prelude.{ℕ, List, [], ◌∷◌}
use kurtar.Status.{Machine}

pub data ReservationStatus : Type 0 where
  pending_payment confirmed redeemed cancelled_by_user cancelled_by_merchant no_show expired :
      ReservationStatus

abbrev code : ReservationStatus → ℕ
code pending_payment = 0
code confirmed = 1
code redeemed = 2
code cancelled_by_user = 3
code cancelled_by_merchant = 4
code no_show = 5
code expired = 6

abbrev pub reservation_transitions : ReservationStatus → List ReservationStatus
reservation_transitions pending_payment = confirmed ∷ expired ∷ cancelled_by_user ∷ []
reservation_transitions confirmed =
    redeemed ∷ cancelled_by_user ∷ cancelled_by_merchant ∷ no_show ∷ []
reservation_transitions redeemed = []
reservation_transitions cancelled_by_user = []
reservation_transitions cancelled_by_merchant = []
reservation_transitions no_show = []
reservation_transitions expired = []

abbrev pub machine : Machine ReservationStatus
machine = record {
  code = code;
  keys =
      pending_payment ∷ confirmed ∷ redeemed ∷ cancelled_by_user ∷ cancelled_by_merchant ∷ no_show
      ∷ expired ∷ [];
  next = reservation_transitions;
}
