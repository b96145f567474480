-- ===== src/Market/Conservation/Counters.antt =====
-- The counters of an offer under a release, a redemption and a claim, against the reservations that
-- the same transaction writes.
use kurtar.Prelude.{
  ℕ, ◌+◌, ◌-◌, ◌≤◌, ◌≡◌, refl, ap, Bool, true, false, List, ◌∷◌, ◌==◌, if◌then◌else◌, arith, ==_iff,
  Bool-cases, inl, inr,
}
use kurtar.Status.Reservation.{pending_payment}
use kurtar.Market.Rows.{total}
use kurtar.Market.Rows.Laws.{updated, total-write, matched-found, write-found}
use kurtar.Market.State.{
  Db, Offer, Reservation, offer_key, reservation_key, write_reservation, reservation_matched,
}
use kurtar.Market.Stock.{release, claim, can_release, released, can_claim, claimed}
use kurtar.Market.Reservations.Redeem.{add_redeemed}
use kurtar.Market.Conservation.{
  held_qty, redeemed_qty, is_holding, is_redeemed, IsStocked, IsConserved, IsSnapshot,
}

-- The statuses around a transition that gives the bags back.
pub record Frees (before after : Reservation) : Type 0 where
  pub same_offer : after.offer_id ≡ before.offer_id
  pub held_before : is_holding before.status ≡ true
  pub not_redeemed : is_redeemed before.status ≡ false
  pub free_after : is_holding after.status ≡ false
  pub not_redeemed_after : is_redeemed after.status ≡ false

Frees-qty :
    (offer_id : ℕ) (x y : Reservation)
    → Frees x y
    → (held_qty offer_id x ≡ (if x.offer_id == offer_id then x.qty else 0))
      × (held_qty offer_id y ≡ 0)
      × (redeemed_qty offer_id x ≡ 0)
      × (redeemed_qty offer_id y ≡ 0)
Frees-qty offer_id x y f = (ground arith, ground arith, ground arith, ground arith)

released_counts :
    (qty : ℕ) (o : Offer)
    → qty ≤ o.qty_reserved
    → let o' = updated (can_release qty) (released qty) o in
      (o'.qty_reserved ≡ o.qty_reserved - qty)
      × (o'.qty_redeemed ≡ o.qty_redeemed)
      × (o'.qty_total ≡ o.qty_total)
released_counts qty o h = (ground arith, ground arith, ground arith)

-- An offer after the release of `qty` bags of offer k, against the reservations after the free.
release-IsStocked :
    (rs rs' : List Reservation) (k qty j : ℕ) (o o' : Offer)
    → IsStocked rs j o
    → total (held_qty j) rs' + (if k == j then qty else 0) ≡ total (held_qty j) rs
    → total (redeemed_qty j) rs' ≡ total (redeemed_qty j) rs
    → o' ≡ (if k == j then updated (can_release qty) (released qty) o else o)
    → IsStocked rs' j o'
release-IsStocked rs rs' k qty j o o' s held done e = elim (Bool-cases (k == j)) [
  | inl h ↦
      let held' : total (held_qty j) rs' + qty ≡ total (held_qty j) rs = rw h at held in
      let e' : o' ≡ updated (can_release qty) (released qty) o = rw h at e in
      let (a, b, c) = released_counts qty o (omega (arith, s.reserved)) in
      rw e' (record {
        reserved = omega (arith, s.reserved);
        redeemed_count = omega (arith, s.redeemed_count);
        within = omega (arith, s.within);
      })
  | inr h ↦
      let held' : total (held_qty j) rs' + 0 ≡ total (held_qty j) rs = rw h at held in
      let e' : o' ≡ o = rw h at e in
      rw e' (record {
        reserved = omega (arith, s.reserved);
        redeemed_count = omega (arith, s.redeemed_count);
        within = s.within;
      })
]

-- A guarded transition that frees the bags, with its release.
pub release-IsConserved :
    (db : Db) (id offer_id qty : ℕ) (g : Reservation → Bool) (f : Reservation → Reservation)
    → ((r : Reservation) → g r ≡ true → Frees r (f r))
    → IsSnapshot db id offer_id qty
    → reservation_matched id g db ≡ true
    → IsConserved db
    → IsConserved (release offer_id qty (write_reservation id g f db))
unfolding release
release-IsConserved db id offer_id qty g f frees (r, e, same_offer, same_qty) m c j o' e' =
    let (x, e1, t) = matched-found reservation_key id g db.reservations m in
    let x-r : x ≡ r = ground arith in
    let y-f : updated g f x ≡ f x = rw t in
    let (o, eo, after) =
      write-found offer_key j offer_id (can_release qty) (released qty) db.offers o' (λ _. refl)
        e' in
    let held = total-write reservation_key (held_qty j) id g f db.reservations x e1 in
    let done = total-write reservation_key (redeemed_qty j) id g f db.reservations x e1 in
    let (a1, a2, a3, a4) = Frees-qty j x (f x) (frees x t) in
    let qty-x : (if x.offer_id == j then x.qty else 0) ≡ (if offer_id == j then qty else 0) =
      rw (x-r, same_offer, same_qty) in
    release-IsStocked db.reservations _ offer_id qty j o o' (c j o eo)
      (omega (arith, qty-x, ap (held_qty j) y-f)) (omega (arith, ap (redeemed_qty j) y-f)) after

-- The statuses around a redemption.
pub record Redeems (before after : Reservation) : Type 0 where
  pub same_offer : after.offer_id ≡ before.offer_id
  pub same_qty : after.qty ≡ before.qty
  pub held_before : is_holding before.status ≡ true
  pub not_redeemed : is_redeemed before.status ≡ false
  pub held_after : is_holding after.status ≡ true
  pub redeemed_after : is_redeemed after.status ≡ true

Redeems-qty :
    (offer_id : ℕ) (x y : Reservation)
    → Redeems x y
    → (held_qty offer_id y ≡ held_qty offer_id x)
      × (redeemed_qty offer_id x ≡ 0)
      × (redeemed_qty offer_id y ≡ (if x.offer_id == offer_id then x.qty else 0))
Redeems-qty offer_id x y f = (ground arith, ground arith, ground arith)

redeem-IsStocked :
    (rs rs' : List Reservation) (k qty j : ℕ) (o o' : Offer)
    → IsStocked rs j o
    → total (held_qty j) rs' ≡ total (held_qty j) rs
    → total (redeemed_qty j) rs' ≡ total (redeemed_qty j) rs + (if k == j then qty else 0)
    → o' ≡ (if k == j then record o { qty_redeemed = o.qty_redeemed + qty } else o)
    → IsStocked rs' j o'
redeem-IsStocked rs rs' k qty j o o' s held done e = elim (Bool-cases (k == j)) [
  | inl h ↦
      let done' : total (redeemed_qty j) rs' ≡ total (redeemed_qty j) rs + qty = rw h at done in
      let e' : o' ≡ record o { qty_redeemed = o.qty_redeemed + qty } = rw h at e in
      rw e' (record {
        reserved = omega (arith, s.reserved);
        redeemed_count = omega (arith, s.redeemed_count);
        within = s.within;
      })
  | inr h ↦
      let done' : total (redeemed_qty j) rs' ≡ total (redeemed_qty j) rs + 0 = rw h at done in
      let e' : o' ≡ o = rw h at e in
      rw e' (record {
        reserved = omega (arith, s.reserved);
        redeemed_count = omega (arith, s.redeemed_count);
        within = s.within;
      })
]

-- A redemption, with the increment of the offer's counter.
pub redeem-IsConserved :
    (db : Db) (id offer_id qty : ℕ) (g : Reservation → Bool) (f : Reservation → Reservation)
    → ((r : Reservation) → g r ≡ true → Redeems r (f r))
    → IsSnapshot db id offer_id qty
    → reservation_matched id g db ≡ true
    → IsConserved db
    → IsConserved (add_redeemed offer_id qty (write_reservation id g f db))
redeem-IsConserved db id offer_id qty g f redeems (r, e, same_offer, same_qty) m c j o' e' =
    let (x, e1, t) = matched-found reservation_key id g db.reservations m in
    let x-r : x ≡ r = ground arith in
    let y-f : updated g f x ≡ f x = rw t in
    let (o, eo, after) =
      write-found offer_key j offer_id (λ _. true)
        (λ o. record o { qty_redeemed = o.qty_redeemed + qty }) db.offers o' (λ _. refl) e' in
    let held = total-write reservation_key (held_qty j) id g f db.reservations x e1 in
    let done = total-write reservation_key (redeemed_qty j) id g f db.reservations x e1 in
    let (a1, a2, a3) = Redeems-qty j x (f x) (redeems x t) in
    let qty-x : (if x.offer_id == j then x.qty else 0) ≡ (if offer_id == j then qty else 0) =
      rw (x-r, same_offer, same_qty) in
    redeem-IsStocked db.reservations _ offer_id qty j o o' (c j o eo)
      (omega (arith, ap (held_qty j) y-f)) (omega (arith, qty-x, ap (redeemed_qty j) y-f)) after

claim-IsStocked :
    (rs : List Reservation) (row : Reservation) (db : Db) (k j : ℕ) (o o' : Offer)
    → IsStocked rs j o
    → row.offer_id ≡ k
    → row.status ≡ pending_payment
    → (k ≡ j → can_claim db row.qty o ≡ true)
    → o' ≡ (if k == j then updated (can_claim db row.qty) (claimed row.qty) o else o)
    → IsStocked (row ∷ rs) j o'
claim-IsStocked rs row db k j o o' s same_offer fresh can e = elim (Bool-cases (k == j)) [
  | inl h ↦
      let t : can_claim db row.qty o ≡ true = can ((==_iff k j).0 h) in
      let e' : o' ≡ claimed row.qty o = rw (h, t) at e in
      let room : o.qty_reserved + row.qty ≤ o.qty_total = ground arith in
      let mine : held_qty j row ≡ row.qty = ground arith in
      let none_yet : redeemed_qty j row ≡ 0 = ground arith in
      rw e' (record {
        reserved = omega (arith, s.reserved);
        redeemed_count = omega (arith, s.redeemed_count);
        within = room;
      })
  | inr h ↦
      let e' : o' ≡ o = rw h at e in
      let not_mine : held_qty j row ≡ 0 = ground arith in
      let none_yet : redeemed_qty j row ≡ 0 = ground arith in
      rw e' (record {
        reserved = omega (arith, s.reserved);
        redeemed_count = omega (arith, s.redeemed_count);
        within = s.within;
      })
]

-- A successful claim, with the pending reservation that is inserted for it.
pub claim-IsConserved :
    (db : Db) (row : Reservation) (offer_id : ℕ)
    → row.offer_id ≡ offer_id
    → row.status ≡ pending_payment
    → (claim offer_id row.qty db).0 ≡ true
    → IsConserved db
    → let db1 = (claim offer_id row.qty db).1 in
      IsConserved (record db1 { reservations = row ∷ db.reservations })
unfolding claim
claim-IsConserved db row offer_id same_offer fresh m c j o' e' =
    let (x, e1, t) = matched-found offer_key offer_id (can_claim db row.qty) db.offers m in
    let (o, eo, after) =
      write-found offer_key j offer_id (can_claim db row.qty) (claimed row.qty) db.offers o'
        (λ _. refl) e' in
    claim-IsStocked db.reservations row db offer_id j o o' (c j o eo) same_offer fresh
      (λ same. let x-o : x ≡ o = ground arith in rw (← x-o) t) after
