-- ===== src/Market/Moves.antt =====
-- How the services change the reservations table: every transaction is a chain of inserts and of
-- writes that keep a row's identity and follow the status table of reservation-transitions.ts.
pub mod Settle
pub mod Steps
use kurtar.Prelude.{
  ℕ, ◌≡◌, ◌∙◌, ◌⊎◌, inl, inr, Bool, true, none, some, List, ◌∷◌, ◌==◌, arith, Bool-cases, ◌<◌, ◌≤◌,
}
use kurtar.Status.{is_transition_allowed}
use kurtar.Status.Reservation.{ReservationStatus, machine, pending_payment, confirmed}
use kurtar.Market.Rows.{find, write}
use kurtar.Market.Rows.Laws.{IsUnique, write-IsUnique, find-write, updated}
use kurtar.Market.State.{Db, Reservation, reservation_key, find_reservation}

-- The columns that no service changes.
pub record IsSameOrder (before after : Reservation) : Type 0 where
  pub same_id : after.id ≡ before.id
  pub same_user : after.user_id ≡ before.user_id
  pub same_offer : after.offer_id ≡ before.offer_id
  pub same_qty : after.qty ≡ before.qty
  pub same_total : after.total_cents ≡ before.total_cents

-- Paths in the status table.
pub data Reaches : ReservationStatus → ReservationStatus → Type 0 where
  stay : (s : ReservationStatus) → Reaches s s
  step :
      (s t u : ReservationStatus)
      → is_transition_allowed machine s t ≡ true
      → Reaches t u
      → Reaches s u

pub Reaches-trans : {s t u : ReservationStatus} → Reaches s t → Reaches t u → Reaches s u
Reaches-trans (stay s) q = q
Reaches-trans (step s t u a p) q = step s t _ a (Reaches-trans p q)

-- A guarded update that the table allows.
pub record IsLawful (g : Reservation → Bool) (f : Reservation → Reservation) : Type 0 where
  pub same_order : (r : Reservation) → IsSameOrder r (f r)
  pub allowed :
      (r : Reservation)
      → g r ≡ true
      → ((f r).status ≡ r.status) ⊎ (is_transition_allowed machine r.status (f r).status ≡ true)

pub data Moves : Db → Db → Type 0 where
  same_rows : (db db' : Db) → db'.reservations ≡ db.reservations → Moves db db'
  one_write :
      (db db' : Db) (id : ℕ) (g : Reservation → Bool) (f : Reservation → Reservation)
      → IsLawful g f
      → db'.reservations ≡ write reservation_key id g f db.reservations
      → Moves db db'
  one_insert :
      (db db' : Db) (row : Reservation)
      → find_reservation row.id db ≡ none
      → db'.reservations ≡ row ∷ db.reservations
      → Moves db db'
  both : (db mid db' : Db) → Moves db mid → Moves mid db' → Moves db db'

-- Each reservation is still there, for the same order, at a status that the table reaches.
abbrev pub Evolves : Db → Db → Type 0
Evolves db db' =
    (id : ℕ) (r : Reservation)
    → find_reservation id db ≡ some r
    → (r' : Reservation) × (find_reservation id db' ≡ some r')
      × IsSameOrder r r'
      × Reaches r.status r'.status

-- How far a reservation has come: pending, confirmed, ended.
abbrev pub progress : ReservationStatus → ℕ
progress pending_payment = 0
progress confirmed = 1
progress _ = 2

allowed-progress :
    (s t : ReservationStatus) → is_transition_allowed machine s t ≡ true → progress s < progress t
allowed-progress s t a = ground arith

pub Reaches-progress : {s t : ReservationStatus} → Reaches s t → progress s ≤ progress t
Reaches-progress (stay s) = omega arith
Reaches-progress (step s t u a p) =
    let first = allowed-progress s t a in let rest = Reaches-progress p in omega arith

-- A row that was read earlier, or still stands as it was read.
abbrev pub IsRead : Db → Reservation → Type 0
IsRead db s =
    (r : Reservation) × (find_reservation s.id db ≡ some r)
    × IsSameOrder s r
    × Reaches s.status r.status

Reaches-one :
    (s t : ReservationStatus) → (t ≡ s) ⊎ (is_transition_allowed machine s t ≡ true) → Reaches s t
Reaches-one s t (inl e) = rw e (stay s)
Reaches-one s t (inr a) = step s t t a (stay t)

updated-Reaches :
    (g : Reservation → Bool) (f : Reservation → Reservation) (r : Reservation)
    → IsLawful g f
    → IsSameOrder r (updated g f r) × Reaches r.status (updated g f r).status
updated-Reaches g f r l = elim (Bool-cases (g r)) [
  | inl t ↦ rw t (l.same_order r, Reaches-one _ _ (l.allowed r t))
  | inr t ↦ rw t (ground arith, stay _)
]

find-cons :
    (id : ℕ) (row : Reservation) (rs : List Reservation) (r : Reservation)
    → find reservation_key row.id rs ≡ none
    → find reservation_key id rs ≡ some r
    → find reservation_key id (row ∷ rs) ≡ some r
unfolding find
find-cons id row rs r fresh h = ground arith

pub Moves-Evolves : {db db' : Db} → Moves db db' → Evolves db db'
Moves-Evolves (same_rows db db' e) id r h = (r, rw e h, ground arith, stay _)
Moves-Evolves (one_write db db' k g f l e) id r h =
    let after =
      find-write reservation_key id k g f db.reservations (λ x. (l.same_order x).same_id) in
    let (order, path) = updated-Reaches g f r l in
    elim (Bool-cases (k == id)) [
      | inl t ↦ (updated g f r, rw e (after ∙ rw (t, h)), order, path)
      | inr t ↦ (r, rw e (after ∙ rw (t, h)), ground arith, stay _)
    ]
Moves-Evolves (one_insert db db' row fresh e) id r h =
    (r, rw e (find-cons id row db.reservations r fresh h), ground arith, stay _)
Moves-Evolves (both db mid db' p q) id r h =
    let (r1, h1, o1, s1) = Moves-Evolves p id r h in
    let (r2, h2, o2, s2) = Moves-Evolves q id r1 h1 in (r2, h2, ground arith, Reaches-trans s1 s2)

pub Moves-IsUnique :
    {db db' : Db}
    → Moves db db'
    → IsUnique reservation_key db.reservations
    → IsUnique reservation_key db'.reservations
Moves-IsUnique (same_rows db db' e) u = rw e u
Moves-IsUnique (one_write db db' k g f l e) u =
    rw e (write-IsUnique reservation_key k g f db.reservations (λ x. (l.same_order x).same_id) u)
Moves-IsUnique (one_insert db db' row fresh e) u = rw e (fresh, u)
Moves-IsUnique (both db mid db' p q) u = Moves-IsUnique q (Moves-IsUnique p u)
