-- ===== src/Market/History/Orders.antt =====
-- Reservations over time: an ended reservation stays as it ended.
use kurtar.Prelude.{ℕ, ◌≡◌, refl, some, [], arith}
use kurtar.Status.Reservation.{ReservationStatus, reservation_transitions}
use kurtar.Market.State.{Db, Reservation, find_reservation}
use kurtar.Market.Moves.{Reaches, stay, step}
use kurtar.Market.History.{Reach}
use kurtar.Market.History.Moves.{Reach-Evolves}

Reaches-final : {s t : ReservationStatus} → Reaches s t → reservation_transitions s ≡ [] → t ≡ s
Reaches-final (stay s) e = refl
Reaches-final (step s t u a p) e = ground (arith, e)

-- When a reservation is in a status that the table gives no way out of (redeemed, cancelled, expired
-- or a no-show), it is in that status after everything that happens later.
pub Reach-final :
    (db db' : Db) (id : ℕ) (r : Reservation)
    → Reach db db'
    → find_reservation id db ≡ some r
    → reservation_transitions r.status ≡ []
    → (r' : Reservation) × (find_reservation id db' ≡ some r') × (r'.status ≡ r.status)
Reach-final db db' id r h e final =
    let (r', e', order, path) = Reach-Evolves db db' id r h e in (r', e', Reaches-final path final)
