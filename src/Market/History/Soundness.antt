-- ===== src/Market/History/Soundness.antt =====
-- The invariant of the whole database is kept by every step, so it holds after any history.
use kurtar.Prelude.{
  ℕ, ◌≡◌, ◌≢◌, refl, Option, some, Bool, true, false, arith, List, [], ◌∷◌, All, Bool-cases, inl,
  inr, ◌==◌, ==_iff,
}
use kurtar.Market.Rows.{find, write, total}
use kurtar.Market.Rows.Laws.{updated, write-found}
use kurtar.Market.State.{Db, Offer, Reservation, offer_key, refund_pending, paid, find_reservation}
use kurtar.Market.Conservation.{IsConserved, IsSnapshot, IsStocked, held_qty, redeemed_qty}
use kurtar.Market.Conservation.Steps.{
  payment-IsConserved, create_tx-IsConserved, compensate_failed_intent-IsConserved,
  cancel_tx-IsConserved, redeem_tx-IsConserved,
}
use kurtar.Market.Conservation.Fanout.{fan_out_one-IsConserved}
use kurtar.Market.Conservation.Settle.{
  settle_tx-IsConserved, mark_no_show-IsConserved, refund_for_cancellation-IsConserved,
}
use kurtar.Market.Coherence.{AllCoherent}
use kurtar.Market.Coherence.Steps.{
  create_tx-AllCoherent, compensate_failed_intent-AllCoherent, cancel_tx-AllCoherent,
  redeem_tx-AllCoherent,
}
use kurtar.Market.Coherence.Fanout.{fan_out_one-AllCoherent}
use kurtar.Market.Coherence.Settle.{settle_tx-AllCoherent}
use kurtar.Market.Coherence.Refunds.{
  mark_no_show-AllCoherent, refund_write-AllCoherent, refund_for_cancellation-AllCoherent,
  records_intent-AllCoherent,
}
use kurtar.Market.Moves.{Moves-IsUnique, IsSameOrder, Reaches, Reaches-progress}
use kurtar.Market.Fanout.{is_candidate}
use kurtar.Status.{same}
use kurtar.Status.Reservation.{ReservationStatus, machine, pending_payment}
use kurtar.Market.History.Moves.{After-ok, Step-Moves}
use kurtar.Market.History.{
  Step, Reach, KeepsCounters, IsSound, empty, creates, records_intent, compensates, cancels,
  fans_out, redeems, logs_event, settles, marks_no_show, claims_refund, unclaims_refund, refunds,
  edits_offer, adds_offer, administers, here, next,
}

edited-IsStocked :
    (rs : List Reservation) (j : ℕ) (guard : Offer → Bool) (f : Offer → Offer) (o : Offer)
    → KeepsCounters f
    → IsStocked rs j o
    → IsStocked rs j (updated guard f o)
edited-IsStocked rs j guard f o k s = elim (Bool-cases (guard o)) [
  | inl t ↦ rw t (record {
    reserved = rw (k.reserved o) s.reserved;
    redeemed_count = rw (k.redeemed o) s.redeemed_count;
    within = rw (k.reserved o, k.total o) s.within;
  })
  | inr t ↦ rw t s
]

edits_offer-IsConserved :
    (db : Db) (id : ℕ) (guard : Offer → Bool) (f : Offer → Offer)
    → KeepsCounters f
    → IsConserved db
    → IsConserved (record db { offers = write offer_key id guard f db.offers })
edits_offer-IsConserved db id guard f k c j o' e' =
    let (o, e, after) = write-found offer_key j id guard f db.offers o' k.id e' in
    elim (Bool-cases (id == j)) [
      | inl t ↦
          let same : o' ≡ updated guard f o = rw t at after in
          rw same (edited-IsStocked db.reservations j guard f o k (c j o e))
      | inr t ↦ let same : o' ≡ o = rw t at after in rw same (c j o e)
    ]

unreserved-total :
    (rs : List Reservation) (j : ℕ)
    → All (λ (r : Reservation). r.offer_id ≢ j) rs
    → (total (held_qty j) rs ≡ 0) × (total (redeemed_qty j) rs ≡ 0)
unreserved-total [] j a = (refl, refl)
unreserved-total (r ∷ rs) j a =
    let (h, d) = unreserved-total rs j a.1 in
    let differs : (r.offer_id == j) ≡ false = ground (arith, a.0, ==_iff r.offer_id j) in
    (rw (differs, h), rw (differs, d))

adds_offer-IsConserved :
    (db : Db) (o : Offer)
    → o.qty_reserved ≡ 0
    → o.qty_redeemed ≡ 0
    → All (λ (r : Reservation). r.offer_id ≢ o.id) db.reservations
    → IsConserved db
    → IsConserved (record db { offers = o ∷ db.offers })
unfolding find
adds_offer-IsConserved db o none_reserved none_redeemed a c j o' e' =
    elim (Bool-cases (o.id == j)) [
      | inl t ↦
          let found : ◌≡◌ {A = Option Offer} (some o) (some o') = rw t at e' in
          let same : o' ≡ o = cc in
          let key : j ≡ o.id = ground (arith, ==_iff o.id j) in
          let (h, d) = unreserved-total db.reservations o.id a in
          rw (same, key)
            (record {
              reserved = omega (arith, h, none_reserved);
              redeemed_count = omega (arith, d, none_redeemed);
              within = omega (arith, none_reserved);
            })
      | inr t ↦ c j o' (rw t at e')
    ]

candidate-IsSnapshot :
    (offer_id : ℕ) (s r : Reservation) (db : Db)
    → is_candidate offer_id s ≡ true
    → find_reservation s.id db ≡ some r
    → IsSameOrder s r
    → IsSnapshot db s.id offer_id s.qty
candidate-IsSnapshot offer_id s r db t e order =
    (r, e, ground (arith, t, order.same_offer), order.same_qty)

pending_once :
    {s t : ReservationStatus}
    → Reaches s t
    → same machine s pending_payment ≡ false
    → same machine t pending_payment ≡ false
pending_once {s} {t} path h = ground (arith, Reaches-progress path)

Step-IsConserved : {db db' : Db} → Step db db' → IsSound db → IsConserved db'
Step-IsConserved (creates db db' user_id offer_id qty fresh c e) v =
    After-ok IsConserved _ c db' (create_tx-IsConserved user_id offer_id qty fresh db v.conserved) e
Step-IsConserved (records_intent db id ref) v = payment-IsConserved db id _ _ v.conserved
Step-IsConserved (compensates db c s) v = compensate_failed_intent-IsConserved c db s v.conserved
Step-IsConserved (cancels db db' snapshot now was s e) v =
    After-ok IsConserved _ was db' (cancel_tx-IsConserved snapshot now db s v.conserved) e
Step-IsConserved (fans_out db offer_id s t (r, e, order, path)) v =
    fan_out_one-IsConserved offer_id s db (candidate-IsSnapshot offer_id s r db t e order)
      v.conserved
Step-IsConserved (redeems db db' by snapshot o at answer s e) v =
    After-ok IsConserved _ answer db' (redeem_tx-IsConserved by snapshot o at db s v.conserved) e
Step-IsConserved (logs_event db k) v = v.conserved
Step-IsConserved (settles db now event) v = settle_tx-IsConserved now event db v.unique v.conserved
Step-IsConserved (marks_no_show db id) v = mark_no_show-IsConserved id db v.conserved
Step-IsConserved (claims_refund db id r) v = payment-IsConserved db id _ _ v.conserved
Step-IsConserved (unclaims_refund db id r) v = payment-IsConserved db id _ _ v.conserved
Step-IsConserved (refunds db call faults id oid amount reason by from r) v =
    refund_for_cancellation-IsConserved call faults id oid amount reason by from db v.conserved
Step-IsConserved (edits_offer db id guard f k) v =
    edits_offer-IsConserved db id guard f k v.conserved
Step-IsConserved (adds_offer db o a b c) v = adds_offer-IsConserved db o a b c v.conserved
Step-IsConserved (administers db stores merchants) v = v.conserved

Step-AllCoherent : {db db' : Db} → Step db db' → IsSound db → AllCoherent db'
Step-AllCoherent (creates db db' user_id offer_id qty fresh c e) v =
    After-ok AllCoherent _ c db' (create_tx-AllCoherent user_id offer_id qty fresh db v.coherent) e
Step-AllCoherent (records_intent db id ref) v = records_intent-AllCoherent db id ref v.coherent
Step-AllCoherent (compensates db c s) v = compensate_failed_intent-AllCoherent c db v.coherent
Step-AllCoherent (cancels db db' snapshot now was s e) v =
    After-ok AllCoherent _ was db' (cancel_tx-AllCoherent snapshot now db v.coherent) e
Step-AllCoherent (fans_out db offer_id s t (r, e, order, path)) v =
    fan_out_one-AllCoherent offer_id s r db v.coherent e (pending_once path)
Step-AllCoherent (redeems db db' by snapshot o at answer s e) v =
    After-ok AllCoherent _ answer db' (redeem_tx-AllCoherent by snapshot o at db v.coherent) e
Step-AllCoherent (logs_event db k) v = v.coherent
Step-AllCoherent (settles db now event) v = (settle_tx-AllCoherent now event db v.coherent).0
Step-AllCoherent (marks_no_show db id) v = mark_no_show-AllCoherent id db v.coherent
Step-AllCoherent (claims_refund db id r) v =
    refund_write-AllCoherent db id paid refund_pending refl r v.coherent
Step-AllCoherent (unclaims_refund db id r) v =
    refund_write-AllCoherent db id refund_pending paid refl r v.coherent
Step-AllCoherent (refunds db call faults id oid amount reason by from r) v =
    refund_for_cancellation-AllCoherent call faults id oid amount reason by from db r v.coherent
Step-AllCoherent (edits_offer db id guard f k) v = v.coherent
Step-AllCoherent (adds_offer db o a b c) v = v.coherent
Step-AllCoherent (administers db stores merchants) v = v.coherent

Step-IsSound : {db db' : Db} → Step db db' → IsSound db → IsSound db'
Step-IsSound s v = record {
  unique = Moves-IsUnique (Step-Moves s) v.unique;
  conserved = Step-IsConserved s v;
  coherent = Step-AllCoherent s v;
}

pub Reach-IsSound : {start db : Db} → IsSound start → Reach start db → IsSound db
Reach-IsSound v here = v
Reach-IsSound v (next p s) = Step-IsSound s (Reach-IsSound v p)

pub empty-IsSound : IsSound empty
unfolding find
empty-IsSound = record { unique = tt; conserved = λ j o e. cc; coherent = tt }
