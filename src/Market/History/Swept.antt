-- ===== src/Market/History/Swept.antt =====
-- no-show-sweeper.service.ts after any history: which reservations a run marks.
use mathlib.Core.List.{reverse, reverse-cons}
use kurtar.Prelude.{
  ℕ, zero, suc, ◌+◌, ◌≡◌, refl, ◌∙◌, ap, sym, Bool, true, false, ◌&&◌, ◌||◌, Option, some, List, [],
  ◌∷◌, ◌++◌, ◌==◌, ==_iff, ◌≤◌, ◌<◌, length, ltb, All, Bool-cases, Option-cases, inl, inr, ◌⊎◌,
  arith, if◌then◌else◌,
}
use kurtar.Prelude.{length-append}
use kurtar.Status.{includes}
use kurtar.Status.Reservation.{ReservationStatus, machine, confirmed, no_show}
use kurtar.Market.Rows.{any, find, select}
use kurtar.Market.Rows.Laws.{IsFound, select-IsFound, find-write}
use kurtar.Market.State.{
  Db, Offer, Reservation, reservation_key, find_reservation, find_offer, set_status,
}
use kurtar.Market.Fanout.{status_in}
use kurtar.Market.Sweeper.{
  is_uncollected, uncollected, mark_no_show, mark_all, sweep_once, no_show_from,
  no_show_batch_limit, take,
}
use kurtar.Market.History.{Reach, empty}
use kurtar.Market.History.Soundness.{Reach-IsSound, empty-IsSound}

abbrev is_listed : ℕ → List Reservation → Bool
is_listed id rs = any (λ (x : Reservation). x.id == id) rs

marked_row : (r : Reservation) → status_in no_show_from (set_status no_show r) ≡ false
marked_row r = ground arith

if-off : (b : Bool) (x y : Reservation) → (if b && false then x else y) ≡ y
if-off true x y = refl
if-off false x y = refl

mark_all-found :
    (rs : List Reservation) (db : Db) (id : ℕ) (r : Reservation)
    → find_reservation id db ≡ some r
    → find_reservation id (mark_all rs db).1
      ≡ some (if is_listed id rs && status_in no_show_from r then set_status no_show r else r)
unfolding mark_all mark_no_show
mark_all-found [] db id r e = e
mark_all-found (s ∷ rs) db id r e =
    let db1 = (mark_no_show s.id db).1 in
    let after =
      find-write reservation_key id s.id (status_in no_show_from) (set_status no_show)
        db.reservations (λ _. refl) in
    elim (Bool-cases (s.id == id)) [
      | inr h ↦ rw h (mark_all-found rs db1 id r (after ∙ rw (h, e)))
      | inl h ↦ elim (Bool-cases (status_in no_show_from r)) [
        | inl t ↦
            let found : find_reservation id db1 ≡ some (set_status no_show r) =
              after ∙ rw (h, e) (rw t) in
            let rest = mark_all-found rs db1 id (set_status no_show r) found in
            rw (h, t) (rest ∙ ap some (if-off (is_listed id rs) _ _))
        | inr t ↦
            let found : find_reservation id db1 ≡ some r = after ∙ rw (h, e) (rw t) in
            let rest = mark_all-found rs db1 id r found in
            rw (h, t) (rest ∙ ap some (rw t (if-off (is_listed id rs) _ _)))
      ]
    ]

module _ {A : Type 0} (P : A → Type 0) where
  All-append : (xs ys : List A) → All P xs → All P ys → All P (xs ++ ys)
  All-append [] ys a b = b
  All-append (x ∷ xs) ys a b = (a.0, All-append xs ys a.1 b)

  All-reverse : (xs : List A) → All P xs → All P (reverse xs)
  All-reverse [] a = tt
  All-reverse (x ∷ xs) a =
      rw (reverse-cons x xs) (All-append (reverse xs) (x ∷ []) (All-reverse xs a.1) (a.0, tt))

  All-take : (n : ℕ) (xs : List A) → All P xs → All P (take n xs)
  All-take zero xs a = tt
  All-take (suc n) [] a = tt
  All-take (suc n) (x ∷ xs) a = (a.0, All-take n xs a.1)

module _ {A : Type 0} where
  any-append :
      (test : A → Bool) (xs ys : List A) → any test (xs ++ ys) ≡ (any test xs || any test ys)
  any-append test [] ys = refl
  any-append test (x ∷ xs) ys = ground (arith, any-append test xs ys)

  any-reverse : (test : A → Bool) (xs : List A) → any test (reverse xs) ≡ any test xs
  any-reverse test [] = refl
  any-reverse test (x ∷ xs) =
      ap (any test) (reverse-cons x xs)
      ∙ any-append test (reverse xs) (x ∷ [])
      ∙ ground (arith, any-reverse test xs)

  length-reverse : (xs : List A) → length (reverse xs) ≡ length xs
  length-reverse [] = refl
  length-reverse (x ∷ xs) =
      let rest = length-reverse xs in
      let split = length-append (reverse xs) (x ∷ []) in ap length (reverse-cons x xs) ∙ omega arith

  take_all : (n : ℕ) (xs : List A) → length xs ≤ n → take n xs ≡ xs
  take_all zero [] h = refl
  take_all (suc n) [] h = refl
  take_all zero (x ∷ xs) h = absurd (omega arith)
  take_all (suc n) (x ∷ xs) h = ap (λ l. x ∷ l) (take_all n xs (omega arith))

listed-holds :
    (test : Reservation → Bool) (rows cs : List Reservation) (id : ℕ) (r : Reservation)
    → All (IsFound reservation_key test rows) cs
    → find reservation_key id rows ≡ some r
    → is_listed id cs ≡ true
    → test r ≡ true
listed-holds test rows [] id r a e t = cc
listed-holds test rows (c ∷ cs) id r a e t = elim (Bool-cases (c.id == id)) [
  | inr h ↦ listed-holds test rows cs id r a.1 e (rw h at t)
  | inl h ↦
      let key : c.id ≡ id = (==_iff c.id id).0 h in
      let same_row : c ≡ r =
        some-injective c r (sym a.0.0 ∙ ap (λ i. find reservation_key i rows) key ∙ e) in
      ap test (sym same_row) ∙ a.0.1
]
  where
    some-injective : (x y : Reservation) → ◌≡◌ {A = Option Reservation} (some x) (some y) → x ≡ y
    some-injective x y q = cc

select-is_listed :
    (test : Reservation → Bool) (id : ℕ) (rs : List Reservation) (r : Reservation)
    → find reservation_key id rs ≡ some r
    → test r ≡ true
    → is_listed id (select test rs) ≡ true
unfolding find
select-is_listed test id [] r e t = cc
select-is_listed test id (x ∷ rs) r e t = ground (arith, select-is_listed test id rs r)

-- The row of a confirmed reservation whose pickup ended longer ago than the grace.
pub record IsUncollected (now grace : ℕ) (db : Db) (r : Reservation) : Type 0 where
  pub was_confirmed : r.status ≡ confirmed
  pub offer : Offer
  pub offer_found : find_offer r.offer_id db ≡ some offer
  pub over : offer.pickup_end_at + grace < now

is_uncollected-IsUncollected :
    (now grace : ℕ) (db : Db) (r : Reservation)
    → is_uncollected now grace db r ≡ true
    → IsUncollected now grace db r
unfolding is_uncollected
is_uncollected-IsUncollected now grace db r t = elim (Option-cases (find_offer r.offer_id db)) [
  | inl n ↦
      let off : (status_in no_show_from r && false) ≡ true = rw (n, is_uncollected) at t in
      absurd (never _ off)
  | inr (o, n) ↦
      let on : (status_in no_show_from r && ltb (o.pickup_end_at + grace) now) ≡ true =
        rw (n, is_uncollected) at t in
      record {
        was_confirmed = only_confirmed r.status _ on;
        offer = o;
        offer_found = n;
        over = in_time _ (o.pickup_end_at + grace) on;
      }
]
  where
    never : (b : Bool) → (b && false) ≡ true → ⊥
    never true e = cc
    never false e = cc

    only_confirmed :
        (s : ReservationStatus) (b : Bool)
        → (includes machine no_show_from s && b) ≡ true
        → s ≡ confirmed
    only_confirmed s b e = ground arith

    in_time : (b : Bool) (m : ℕ) → (b && ltb m now) ≡ true → m < now
    in_time b m e = ground arith

IsUncollected-is_uncollected :
    (now grace : ℕ) (db : Db) (r : Reservation)
    → IsUncollected now grace db r
    → is_uncollected now grace db r ≡ true
unfolding is_uncollected
IsUncollected-is_uncollected now grace db r u =
    let late : ltb (u.offer.pickup_end_at + grace) now ≡ true = let over = u.over in ground arith in
    rw (u.offer_found, is_uncollected) (rw late (rw u.was_confirmed))

module _ (now grace id : ℕ) (r : Reservation) (db : Db) where
  abbrev candidates : List Reservation
  candidates = select (is_uncollected now grace db) db.reservations

  -- After any history that starts from the empty database, a run of the no-show sweeper leaves a
  -- reservation exactly as it was, or marks it as a no-show; and it marks it only if it is
  -- confirmed and the pickup of its offer ended longer ago than the grace.
  pub sweep_once-marks :
      Reach empty db
      → find_reservation id db ≡ some r
      → (find_reservation id (sweep_once now grace db).1 ≡ some r)
        ⊎ ((find_reservation id (sweep_once now grace db).1 ≡ some (set_status no_show r))
            × IsUncollected now grace db r)
  unfolding sweep_once uncollected
  sweep_once-marks h e =
      let sound = Reach-IsSound empty-IsSound h in
      let after = mark_all-found (uncollected now grace db) db id r e in
      let listed = All-take _ no_show_batch_limit (reverse candidates) (
        All-reverse _ candidates (
          select-IsFound reservation_key (is_uncollected now grace db) db.reservations
            sound.unique)) in
      elim (Bool-cases (is_listed id (uncollected now grace db))) [
        | inr t ↦ inl (after ∙ rw t)
        | inl t ↦
            let u = is_uncollected-IsUncollected now grace db r (
              listed-holds (is_uncollected now grace db) db.reservations (uncollected now grace db)
                id r listed e t) in
            inr (after ∙ rw t (rw u.was_confirmed), u)
      ]

  -- When at most 500 reservations are due, a run of the no-show sweeper marks every confirmed
  -- reservation that is found and whose offer's pickup ended longer ago than the grace.
  pub sweep_once_complete :
      find_reservation id db ≡ some r
      → IsUncollected now grace db r
      → length (select (is_uncollected now grace db) db.reservations) ≤ no_show_batch_limit
      → find_reservation id (sweep_once now grace db).1 ≡ some (set_status no_show r)
  unfolding sweep_once uncollected
  sweep_once_complete e u few =
      let after = mark_all-found (uncollected now grace db) db id r e in
      let all =
        take_all no_show_batch_limit (reverse candidates)
          (let same_length = length-reverse candidates in omega arith) in
      let listed : is_listed id (uncollected now grace db) ≡ true =
        ap (is_listed id) all
        ∙ any-reverse _ candidates
        ∙ select-is_listed (is_uncollected now grace db) id db.reservations r e
            (IsUncollected-is_uncollected now grace db r u) in
      after ∙ rw listed (rw u.was_confirmed)
