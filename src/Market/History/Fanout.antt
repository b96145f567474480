-- ===== src/Market/History/Fanout.antt =====
-- reservations.service.ts, `cancelAllForOffer`, while other transactions commit between its turns.
use kurtar.Prelude.{
  ℕ, ◌≡◌, refl, ◌∙◌, ap, sym, Bool, true, false, Option, some, List, [], ◌∷◌, ◌==◌, ◌<◌, ◌≤◌, arith,
  All, Bool-cases, Option-cases, inl, inr,
}
use kurtar.Status.{same}
use kurtar.Status.Reservation.{
  ReservationStatus, machine, pending_payment, expired, cancelled_by_merchant,
}
use kurtar.Market.Rows.{find, select}
use kurtar.Market.Rows.Laws.{IsFound, select-IsFound, find-All, find-key, updated, found-matched}
use kurtar.Market.Rows.Compose.{find-write_same}
use kurtar.Market.State.{
  Db, Reservation, reservation_key, find_reservation, write_reservation, reservation_matched,
  payment_in, live_statuses, set_payment_status, set_status, failed,
}
use kurtar.Market.Stock.{release}
use kurtar.Market.Reservations.Create.{expirable_from}
use kurtar.Market.Fanout.{
  FanOutStep, move_one, fan_out_one, fan_out, cancel_all_for_offer, is_candidate, status_in,
  cancelled_by_merchant_from,
}
use kurtar.Market.Coherence.{IsCoherent}
use kurtar.Market.Coherence.Steps.{failed_row}
use kurtar.Market.Moves.{IsRead, Reaches, Reaches-progress, Reaches-trans, progress, stay}
use kurtar.Market.History.{Reach, empty, Reach-trans, fans_out, here, next}
use kurtar.Market.History.Moves.{Reach-Evolves}
use kurtar.Market.History.Soundness.{Reach-IsSound, empty-IsSound}

-- What the loop goes on with.
abbrev IsListed : ℕ → Db → Reservation → Type 0
IsListed offer_id db s = (is_candidate offer_id s ≡ true) × IsRead db s

abbrev IsHistory : (ℕ → Db → Db) → Type 0
IsHistory others = (k : ℕ) (db : Db) → Reach db (others k db)

IsListed-Reach :
    (offer_id : ℕ) (db db' : Db) (cs : List Reservation)
    → Reach db db'
    → All (IsListed offer_id db) cs
    → All (IsListed offer_id db') cs
IsListed-Reach offer_id db db' [] h a = tt
IsListed-Reach offer_id db db' (c ∷ cs) h a =
    let (r, e, order, path) = a.0.1 in
    let (r', e', order', path') = Reach-Evolves db db' c.id r h e in
    (
      (a.0.0, (r', e', ground arith, Reaches-trans path path')),
      IsListed-Reach offer_id db db' cs h a.1,
    )

turn-Reach :
    (others : ℕ → Db → Db) (offer_id : ℕ) (s : Reservation) (db : Db)
    → IsHistory others
    → IsListed offer_id db s
    → Reach db (fan_out_one offer_id s (others s.id db)).1
turn-Reach others offer_id s db hs l =
    let there = IsListed-Reach offer_id db (others s.id db) (s ∷ []) (hs s.id db) (l, tt) in
    next (hs s.id db) (fans_out (others s.id db) offer_id s there.0.0 there.0.1)

pub fan_out-Reach :
    (others : ℕ → Db → Db) (offer_id : ℕ) (cs : List Reservation) (db : Db)
    → IsHistory others
    → All (IsListed offer_id db) cs
    → Reach db (fan_out others offer_id cs db).1
unfolding fan_out
fan_out-Reach others offer_id [] db hs a = here
fan_out-Reach others offer_id (s ∷ cs) db hs a =
    let turn = turn-Reach others offer_id s db hs a.0 in
    Reach-trans turn (
      fan_out-Reach others offer_id cs (fan_out_one offer_id s (others s.id db)).1 hs
        (IsListed-Reach offer_id db _ cs turn a.1))

move_one-found :
    (offer_id : ℕ) (s y : Reservation) (to : ReservationStatus) (from : List ReservationStatus)
    (step : FanOutStep) (db : Db)
    → find_reservation s.id db ≡ some y
    → find_reservation s.id (move_one offer_id s to from step db).1
      ≡ some (updated (status_in from) (set_status to) y)
unfolding move_one release
move_one-found offer_id s y to from step db e =
    elim (Bool-cases (reservation_matched s.id (status_in from) db)) [
      | inl m ↦ rw m (
          find-write_same reservation_key s.id (status_in from) (set_status to) db.reservations y
            (λ _. refl) e)
      | inr m ↦
          let t =
            sym (found-matched reservation_key s.id (status_in from) db.reservations y e) ∙ m in
          rw m (e ∙ rw t)
    ]

-- The row is there, and it has come further than when it was read.
abbrev IsAdvanced : Reservation → Db → Type 0
IsAdvanced s db =
    (y : Reservation) × (find_reservation s.id db ≡ some y)
    × (progress s.status < progress y.status)

-- The row after a guarded transition.
abbrev moved_row : List ReservationStatus → ReservationStatus → Reservation → Reservation
moved_row from to y = updated (status_in from) (set_status to) y

pending_advances :
    (s y : Reservation)
    → same machine s.status pending_payment ≡ true
    → progress s.status < progress (moved_row expirable_from expired y).status
pending_advances s y t = ground arith

confirmed_advances :
    (offer_id : ℕ) (s y : Reservation)
    → is_candidate offer_id s ≡ true
    → same machine s.status pending_payment ≡ false
    → progress s.status ≤ progress y.status
    → progress s.status
      < progress (moved_row cancelled_by_merchant_from cancelled_by_merchant y).status
confirmed_advances offer_id s y c t h = ground arith

fan_out_one-IsAdvanced :
    (offer_id : ℕ) (s : Reservation) (db : Db)
    → IsListed offer_id db s
    → IsCoherent s
    → IsAdvanced s (fan_out_one offer_id s db).1
unfolding fan_out_one
fan_out_one-IsAdvanced offer_id s db (c, (x, e, order, path)) v = elim (Option-cases s.payment) [
  | inl n ↦ absurd (rw n at v.payment)
  | inr (p, n) ↦
      let g = payment_in live_statuses in
      let db1 = write_reservation s.id g (set_payment_status failed) db in
      let row = failed_row live_statuses x in
      let forward = Reaches-progress path in
      let found : find_reservation s.id db1 ≡ some row =
        find-write_same reservation_key s.id g (set_payment_status failed) db.reservations x
          (λ _. refl) e in
      let kept : row.status ≡ x.status = ground arith in
      elim (Bool-cases (same machine s.status pending_payment)) [
        | inl t ↦
            rw (n, t, fan_out_one)
              (
                moved_row expirable_from expired row,
                move_one-found offer_id s row expired expirable_from _ db1 found,
                pending_advances s row t,
              )
        | inr t ↦
            rw (n, t, fan_out_one)
              (
                moved_row cancelled_by_merchant_from cancelled_by_merchant row,
                move_one-found offer_id s row cancelled_by_merchant cancelled_by_merchant_from _ db1
                    found,
                confirmed_advances offer_id s row c t (rw kept forward),
              )
      ]
]

IsAdvanced-Reach :
    (s : Reservation) (db db' : Db) → Reach db db' → IsAdvanced s db → IsAdvanced s db'
IsAdvanced-Reach s db db' h (y, e, more) =
    let (y', e', order, path) = Reach-Evolves db db' s.id y h e in
    let further = Reaches-progress path in (y', e', omega arith)

fan_out-IsAdvanced :
    (others : ℕ → Db → Db) (offer_id id : ℕ) (r : Reservation) (cs : List Reservation) (db : Db)
    → IsHistory others
    → All (IsListed offer_id db) cs
    → find reservation_key id cs ≡ some r
    → IsCoherent r
    → IsAdvanced r (fan_out others offer_id cs db).1
unfolding fan_out find
fan_out-IsAdvanced others offer_id id r [] db hs a f v = cc
fan_out-IsAdvanced others offer_id id r (s ∷ cs) db hs a f v =
    let db1 = others s.id db in
    let db2 = (fan_out_one offer_id s db1).1 in
    let rest = IsListed-Reach offer_id db db2 cs (turn-Reach others offer_id s db hs a.0) a.1 in
    elim (Bool-cases (s.id == id)) [
      | inl h ↦
          let found : ◌≡◌ {A = Option Reservation} (some s) (some r) = rw h at f in
          let row : r ≡ s = cc in
          let there = IsListed-Reach offer_id db db1 (s ∷ []) (hs s.id db) (a.0, tt) in
          rw row (
            IsAdvanced-Reach s db2 (fan_out others offer_id cs db2).1
              (fan_out-Reach others offer_id cs db2 hs rest)
              (fan_out_one-IsAdvanced offer_id s db1 there.0 (rw row at v)))
      | inr h ↦ fan_out-IsAdvanced others offer_id id r cs db2 hs rest (rw h at f) v
    ]

select-found :
    (test : Reservation → Bool) (id : ℕ) (rs : List Reservation) (r : Reservation)
    → find reservation_key id rs ≡ some r
    → test r ≡ true
    → find reservation_key id (select test rs) ≡ some r
unfolding find
select-found test id [] r e t = cc
select-found test id (x ∷ rs) r e t = ground (arith, select-found test id rs r)

candidates-IsListed :
    (offer_id : ℕ) (db : Db) (cs : List Reservation)
    → All (IsFound reservation_key (is_candidate offer_id) db.reservations) cs
    → All (IsListed offer_id db) cs
candidates-IsListed offer_id db [] a = tt
candidates-IsListed offer_id db (c ∷ cs) a =
    ((a.0.1, (c, a.0.0, ground arith, stay _)), candidates-IsListed offer_id db cs a.1)

-- After any history that starts from the empty database, and whatever histories other transactions
-- run before each turn of the fan-out of a cancelled offer: a reservation for that offer that was
-- pending or confirmed when the fan-out read it has come further when the fan-out is over. Read as
-- confirmed, it has ended; read as pending, it has ended or has been paid and confirmed in between.
-- Its status follows the status table, and its payment agrees with it.
pub cancel_all_for_offer_advances :
    (others : ℕ → Db → Db) (db : Db) (offer_id id : ℕ) (r : Reservation)
    → ((k : ℕ) (d : Db) → Reach d (others k d))
    → Reach empty db
    → find_reservation id db ≡ some r
    → is_candidate offer_id r ≡ true
    → (r' : Reservation) × (find_reservation id (cancel_all_for_offer others offer_id db).1
        ≡ some r')
      × (progress r.status < progress r'.status)
      × Reaches r.status r'.status
      × IsCoherent r'
unfolding cancel_all_for_offer
cancel_all_for_offer_advances others db offer_id id r hs h e t =
    let sound = Reach-IsSound empty-IsSound h in
    let cs = select (is_candidate offer_id) db.reservations in
    let listed =
      candidates-IsListed offer_id db cs
        (select-IsFound reservation_key (is_candidate offer_id) db.reservations sound.unique) in
    let run = fan_out-Reach others offer_id cs db hs listed in
    let v = find-All reservation_key IsCoherent id db.reservations r sound.coherent e in
    let key : r.id ≡ id = find-key reservation_key id db.reservations r e in
    let (y, at_key, more) =
      fan_out-IsAdvanced others offer_id id r cs db hs listed
        (select-found (is_candidate offer_id) id db.reservations r e t) v in
    let (r', e', order, path) = Reach-Evolves db _ id r run e in
    let same_row : r' ≡ y = some-injective (
      sym e' ∙ ap (λ i. find_reservation i (fan_out others offer_id cs db).1) (sym key) ∙ at_key) in
    let after = Reach-IsSound sound run in
    (r', e', rw same_row more, path, find-All reservation_key IsCoherent id _ r' after.coherent e')
  where
    some-injective : {x y : Reservation} → ◌≡◌ {A = Option Reservation} (some x) (some y) → x ≡ y
    some-injective p = cc
