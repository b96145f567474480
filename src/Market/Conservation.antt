-- ===== src/Market/Conservation.antt =====
-- Stock over reservations.service.ts, payment-settle.service.ts and no-show-sweeper.service.ts: what
-- an offer's counters have to be, and how the updates of the services move them.
pub mod Settle
pub mod Counters
pub mod Fanout
pub mod Steps
use kurtar.Prelude.{
  ℕ, ◌+◌, ◌-◌, ◌≤◌, ◌≡◌, refl, ◌∙◌, ap, Bool, true, false, ◌&&◌, some, List, ◌∷◌, ◌==◌,
  if◌then◌else◌, arith, ==_iff, Bool-cases, inl, inr,
}
use kurtar.Status.Reservation.{ReservationStatus, pending_payment, confirmed, redeemed, no_show}
use kurtar.Market.Rows.{total}
use kurtar.Market.Rows.Laws.{
  updated, find-write, total-write, total-write_neutral, matched-found, write-found,
}
use kurtar.Market.State.{
  Db, Offer, Reservation, offer_key, reservation_key, find_offer, find_reservation,
  write_reservation, reservation_matched,
}
use kurtar.Market.Stock.{release, claim, can_release, released, can_claim, claimed}
use kurtar.Market.Reservations.Redeem.{add_redeemed}

-- The statuses in which a reservation occupies its bags: they were claimed and not given back.
abbrev pub is_holding : ReservationStatus → Bool
is_holding pending_payment = true
is_holding confirmed = true
is_holding redeemed = true
is_holding no_show = true
is_holding _ = false

abbrev pub is_redeemed : ReservationStatus → Bool
is_redeemed redeemed = true
is_redeemed _ = false

abbrev pub held_qty : ℕ → Reservation → ℕ
held_qty offer_id r = if r.offer_id == offer_id && is_holding r.status then r.qty else 0

abbrev pub redeemed_qty : ℕ → Reservation → ℕ
redeemed_qty offer_id r = if r.offer_id == offer_id && is_redeemed r.status then r.qty else 0

-- The counters of an offer against the reservations: nothing lost, nothing given back twice,
-- nothing oversold.
pub record IsStocked (rs : List Reservation) (offer_id : ℕ) (o : Offer) : Type 0 where
  pub reserved : o.qty_reserved ≡ total (held_qty offer_id) rs
  pub redeemed_count : o.qty_redeemed ≡ total (redeemed_qty offer_id) rs
  pub within : o.qty_reserved ≤ o.qty_total

abbrev pub IsConserved : Db → Type 0
IsConserved db =
    (offer_id : ℕ) (o : Offer)
    → find_offer offer_id db ≡ some o
    → IsStocked db.reservations offer_id o

-- What a service read of a reservation in an earlier statement, as far as it is used again: the
-- columns that no service ever changes.
abbrev pub IsSnapshot : Db → ℕ → ℕ → ℕ → Type 0
IsSnapshot db id offer_id qty =
    (r : Reservation) × (find_reservation id db ≡ some r) × (r.offer_id ≡ offer_id) × (r.qty ≡ qty)

-- A write that leaves the bags of a row alone.
pub record Keeps (before after : Reservation) : Type 0 where
  pub same_offer : after.offer_id ≡ before.offer_id
  pub same_qty : after.qty ≡ before.qty
  pub same_holding : is_holding after.status ≡ is_holding before.status
  pub same_redeemed : is_redeemed after.status ≡ is_redeemed before.status

Keeps-qty :
    (offer_id : ℕ) (x y : Reservation)
    → Keeps x y
    → (held_qty offer_id y ≡ held_qty offer_id x)
      × (redeemed_qty offer_id y ≡ redeemed_qty offer_id x)
Keeps-qty offer_id x y k = (ground arith, ground arith)

pub write-IsConserved :
    (db : Db) (id : ℕ) (g : Reservation → Bool) (f : Reservation → Reservation)
    → ((r : Reservation) → g r ≡ true → Keeps r (f r))
    → IsConserved db
    → IsConserved (write_reservation id g f db)
write-IsConserved db id g f keep c j o e =
    let s = c j o e in
    let held =
      total-write_neutral reservation_key (held_qty j) id g f db.reservations
        (λ r t. (Keeps-qty j r (f r) (keep r t)).0) in
    let done =
      total-write_neutral reservation_key (redeemed_qty j) id g f db.reservations
        (λ r t. (Keeps-qty j r (f r) (keep r t)).1) in
    record {
      reserved = omega (arith, s.reserved);
      redeemed_count = omega (arith, s.redeemed_count);
      within = s.within;
    }

-- A write keeps every snapshot: no service changes a reservation's offer or quantity.
pub write-IsSnapshot :
    (db : Db) (k offer_id qty : ℕ) (id : ℕ) (g : Reservation → Bool) (f : Reservation → Reservation)
    → ((r : Reservation) → ((f r).id ≡ r.id) × ((f r).offer_id ≡ r.offer_id) × ((f r).qty ≡ r.qty))
    → IsSnapshot db k offer_id qty
    → IsSnapshot (write_reservation id g f db) k offer_id qty
write-IsSnapshot db k offer_id qty id g f keep (r, e, same_offer, same_qty) =
    let after = find-write reservation_key k id g f db.reservations (λ x. (keep x).0) in
    elim (Bool-cases (id == k)) [
      | inl h ↦ (updated g f r, after ∙ rw (h, e), ground (arith, keep r), ground (arith, keep r))
      | inr h ↦ (r, after ∙ rw (h, e), same_offer, same_qty)
    ]
