-- ===== src/Ledger/Reconciled/Opened.antt =====
-- A new batch keeps the ledger reconciled.
use kurtar.BusinessDays.{one_day_ms}
use kurtar.Prelude.{
  ℕ, ◌*◌, ◌≡◌, refl, sym, ◌∙◌, true, false, Option, none, some, List, [], ◌∷◌, arith, ◌==◌, ==_iff,
  All, Bool-cases, Option-cases, inl, inr,
}
use kurtar.Market.Rows.{find}
use kurtar.Ledger.State.{
  SettlementBatch, SettlementLine, ClawbackAllocation, CarriedDemandClaim, Ledger, batch_id_of,
  claimant_of, allocated_by,
}
use kurtar.Ledger.Carried.{claimed_by}
use kurtar.Ledger.Open.{new_batch, open_batch, find_first, is_open_for}
use kurtar.Ledger.Reconciled.{
  IsReconciled, IsBacked, HasClaimant, is_backed, is_backed_by, owner_of,
}
use kurtar.Ledger.Reconciled.Backed.{All-map}

is_backed_by-found :
    (batches : List SettlementBatch) (owner : Option ℕ) (c : ℕ)
    → find batch_id_of c batches ≡ none
    → is_backed_by batches owner c ≡ false
is_backed_by-found batches none c e = refl
is_backed_by-found batches (some o) c e = elim (Option-cases (find batch_id_of o batches)) [
  | inl n ↦ rw n refl
  | inr (w, n) ↦ rw (n, e) refl
]

unclaimed :
    (batches : List SettlementBatch) (id : ℕ) (claims : List CarriedDemandClaim)
    → find batch_id_of id batches ≡ none
    → All (HasClaimant batches) claims
    → find claimant_of id claims ≡ none
unfolding find
unclaimed batches id [] e a = refl
unclaimed batches id (c ∷ claims) e a = elim (Bool-cases (c.claimant_batch_id == id)) [
  | inl t ↦
      let same : c.claimant_batch_id ≡ id = (==_iff _ _).0 t in
      let impossible : true ≡ false = rw (same, e) at a.0 in cc
  | inr t ↦ rw t (unclaimed batches id claims e a.1)
]

unallocated :
    (batches : List SettlementBatch) (lines : List SettlementLine) (id : ℕ)
    (as_ : List ClawbackAllocation)
    → find batch_id_of id batches ≡ none
    → All (IsBacked batches lines) as_
    → allocated_by id as_ ≡ 0
unfolding is_backed
unallocated batches lines id [] e a = refl
unallocated batches lines id (x ∷ as_) e a = elim (Bool-cases (x.batch_id == id)) [
  | inl t ↦
      let same : x.batch_id ≡ id = (==_iff _ _).0 t in
      let missing =
        is_backed_by-found batches (owner_of x.reservation_id lines) x.batch_id (rw same e) in
      let impossible : false ≡ true = sym missing ∙ a.0 in cc
  | inr t ↦ let rest = unallocated batches lines id as_ e a.1 in rw t (omega (arith, rest))
]

pub find-cons :
    (b : SettlementBatch) (batches : List SettlementBatch) (j : ℕ) (x : SettlementBatch)
    → find batch_id_of b.id batches ≡ none
    → find batch_id_of j batches ≡ some x
    → find batch_id_of j (b ∷ batches) ≡ some x
unfolding find
find-cons b batches j x fresh e = elim (Bool-cases (b.id == j)) [
  | inl t ↦
      let same : b.id ≡ j = (==_iff _ _).0 t in
      let impossible : none ≡ some x = rw (same, e) at (sym fresh) in cc
  | inr t ↦ rw t e
]

cons-is_backed_by :
    (b : SettlementBatch) (batches : List SettlementBatch) (owner : Option ℕ) (c : ℕ)
    → find batch_id_of b.id batches ≡ none
    → is_backed_by batches owner c ≡ true
    → is_backed_by (b ∷ batches) owner c ≡ true
cons-is_backed_by b batches none c fresh h = h
cons-is_backed_by b batches (some o) c fresh h = elim (Option-cases (find batch_id_of o batches)) [
  | inl n ↦ let impossible : false ≡ true = rw n at h in cc
  | inr (w, n) ↦ elim (Option-cases (find batch_id_of c batches)) [
    | inl m ↦ let impossible : false ≡ true = rw (n, m) at h in cc
    | inr (v, m) ↦
        rw (find-cons b batches o w fresh n, find-cons b batches c v fresh m) (rw (n, m) at h)
  ]
]

-- A batch with a fresh identifier, which nothing was withheld for, can be added.
pub cons-IsReconciled :
    (b : SettlementBatch) (db : Ledger)
    → find batch_id_of b.id db.batches ≡ none
    → b.refund_clawback_cents ≡ 0
    → b.inherited_external_demand_cents ≡ 0
    → b.carried_external_demand_cents ≡ 0
    → IsReconciled db
    → IsReconciled (record db { batches = b ∷ db.batches })
unfolding is_backed claimed_by
cons-IsReconciled b db fresh refund inherited carried h = record {
  unique_batches = (fresh, h.unique_batches);
  unique_lines = h.unique_lines;
  backed =
      All-map (IsBacked db.batches db.lines) _ db.allocations
        (λ a e.
          cons-is_backed_by b db.batches (owner_of a.reservation_id db.lines) a.batch_id fresh e)
        h.backed;
  lines = h.lines;
  batches = (
    record {
      claimed = rw (inherited, unclaimed db.batches b.id db.claims fresh h.claimants) refl;
      absorbed = rw (inherited, carried) (omega arith);
      withheld =
          rw
            (
              refund,
              inherited,
              carried,
              unallocated db.batches db.lines b.id db.allocations fresh h.backed,
            )
            refl;
    },
    h.batches,
  );
  claimants =
      All-map (HasClaimant db.batches) _ db.claims
        (λ c e. elim (Option-cases (find batch_id_of c.claimant_batch_id db.batches)) [
          | inl n ↦ let impossible : true ≡ false = rw n at e in cc
          | inr (x, n) ↦ rw (find-cons b db.batches c.claimant_batch_id x fresh n) refl
        ])
        h.claimants;
}

-- `createOrExtendBatch` with a fresh identifier keeps it.
pub open_batch-IsReconciled :
    (new_id merchant_id day : ℕ) (holidays : List ℕ) (db : Ledger)
    → find batch_id_of new_id db.batches ≡ none
    → IsReconciled db
    → IsReconciled (open_batch new_id merchant_id day holidays db).1
unfolding open_batch
open_batch-IsReconciled new_id merchant_id day holidays db fresh h =
    elim (Option-cases (find_first (is_open_for merchant_id (day * one_day_ms)) db.batches)) [
      | inr (b, e) ↦ rw (e, open_batch) h
      | inl e ↦
          rw (e, open_batch)
            (cons-IsReconciled (new_batch new_id merchant_id day holidays) db fresh refl refl refl
              h)
    ]
