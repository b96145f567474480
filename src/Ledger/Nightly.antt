-- ===== src/Ledger/Nightly.antt =====
-- settlement-batch-builder.service.ts: `runNightlyCycle`. One merchant's failure is recorded, and
-- the cycle goes on.
use kurtar.BusinessDays.{istanbul_day, one_day_ms}
use kurtar.Prelude.{
  ℕ, ◌-◌, ◌*◌, Bool, true, ◌&&◌, ◌||◌, Option, none, some, List, [], ◌∷◌, ◌++◌, map, ltb, leb, ◌==◌,
  if◌then◌else◌, Result, ok, err,
}
use kurtar.Status.{same}
use kurtar.Status.Settlement.{recomputable_settlement_statuses}
use kurtar.Status.Reservation
use kurtar.Status.Reservation.{ReservationStatus, redeemed, no_show}
use kurtar.Market.Rows.{select}
use kurtar.Settlement.Rate.{JsNumber}
use kurtar.Ledger.State.{
  SettlementBatch, SettlementLine, Ledger, Surroundings, Error, find_batch, find_line,
  has_status_in, paid_statuses, is_none, full_clawback_demand_cents, contains,
}
use kurtar.Ledger.Pass.{PendingSettlementLine}
use kurtar.Ledger.Recompute.{recompute_batch}
use kurtar.Ledger.Open.{EarnedLine, open_batch, pending_lines}

-- The columns of a reservation that the eligibility scan reads.
pub record SettlementAnchored : Type 0 where
  pub id : ℕ
  pub merchant_id : ℕ
  pub status : ReservationStatus
  pub is_paid : Bool
  pub redeemed_at : Option ℕ
  pub pickup_end_at : ℕ
  pub total_cents : ℕ
  pub qty : JsNumber

abbrev pub has_status : ReservationStatus → SettlementAnchored → Bool
has_status s r = same Reservation.machine r.status s

-- `reservation.redeemedAt!`; the scan selects no redeemed reservation without it.
abbrev pub redeemed_at? : Option ℕ → ℕ
redeemed_at? none = 0
redeemed_at? (some at) = at

unfoldable pub settlement_anchor_of : SettlementAnchored → ℕ
settlement_anchor_of r =
    if has_status redeemed r then redeemed_at? r.redeemed_at else r.pickup_end_at

-- `compareBySettlementAnchor`, as whether the first is not after the second.
abbrev pub anchored_before : SettlementAnchored → SettlementAnchored → Bool
anchored_before a b =
    if ltb (settlement_anchor_of a) (settlement_anchor_of b)
    then true
    else (settlement_anchor_of a == settlement_anchor_of b) && leb a.id b.id

unfoldable pub insert_anchored :
    SettlementAnchored → List SettlementAnchored → List SettlementAnchored
unfolding settlement_anchor_of
insert_anchored r [] = r ∷ []
insert_anchored r (x ∷ xs) = if anchored_before r x then r ∷ x ∷ xs else x ∷ insert_anchored r xs

unfoldable pub sort_anchored : List SettlementAnchored → List SettlementAnchored
unfolding insert_anchored
sort_anchored [] = []
sort_anchored (r ∷ rs) = insert_anchored r (sort_anchored rs)

-- The `where` of the scan: paid, without a line, and redeemed or a no-show.
unfoldable pub is_eligible : Ledger → SettlementAnchored → Bool
unfolding find_line
is_eligible db r =
    is_none (find_line r.id db.lines)
    && r.is_paid
    && (if is_none r.redeemed_at
        then has_status no_show r
        else has_status redeemed r || has_status no_show r)

pub record Group : Type 0 where
  pub merchant_id : ℕ
  pub day : ℕ
  pub lines : List EarnedLine

abbrev pub earned_line : SettlementAnchored → EarnedLine
earned_line r = record {
  reservation_id = r.id;
  gross_cents = r.total_cents;
  qty = r.qty;
  earned_at = settlement_anchor_of r;
}

-- The reservation joins its merchant's group of the day, or begins it.
unfoldable pub add_to_groups : SettlementAnchored → List Group → List Group
unfolding settlement_anchor_of istanbul_day
add_to_groups r [] =
    record {
      merchant_id = r.merchant_id;
      day = istanbul_day (settlement_anchor_of r);
      lines = earned_line r ∷ [];
    }
    ∷ []
add_to_groups r (g ∷ gs) =
    if (g.merchant_id == r.merchant_id) && (g.day == istanbul_day (settlement_anchor_of r))
    then record g { lines = g.lines ++ (earned_line r ∷ []) } ∷ gs
    else g ∷ add_to_groups r gs

unfoldable pub group_lines : List SettlementAnchored → List Group → List Group
unfolding add_to_groups
group_lines [] groups = groups
group_lines (r ∷ rs) groups = group_lines rs (add_to_groups r groups)

pub data Stage : Type 0 where
  batch_stage clawback_sweep : Stage

pub record NightlyCycleFailure : Type 0 where
  pub merchant_id : ℕ
  pub stage : Stage
  pub error : Error

-- What the cycle has done so far: the ledger, the batches it touched and the failures.
pub record Night : Type 0 where
  pub db : Ledger
  pub batch_ids : List ℕ
  pub failures : List NightlyCycleFailure

abbrev pub failed_at : ℕ → Stage → Error → Ledger → Night → Night
failed_at merchant_id stage e db night = record night {
  db = db;
  failures = record { merchant_id = merchant_id; stage = stage; error = e } ∷ night.failures;
}

-- The end of a merchant's work: the recompute commit_pass, or its failure is recorded.
unfoldable pub touched :
    ℕ → Stage → ℕ → Ledger → Result Error (SettlementBatch × Ledger) → Night → Night
touched merchant_id stage batch_id db (err e) night = failed_at merchant_id stage e db night
touched merchant_id stage batch_id db (ok (_, db2)) night = record night {
  db = db2;
  batch_ids = batch_id ∷ night.batch_ids;
}

module _ (around : Surroundings) (holidays : List ℕ) (new_id : Ledger → ℕ) (now : ℕ) where
  -- The lines were computed, or failed, after the batch was opened.
  unfoldable pub recompute_with :
      ℕ → ℕ → Ledger → Result Error (List PendingSettlementLine) → Night → Night
  unfolding recompute_batch touched
  recompute_with merchant_id batch_id db (err e) night =
      failed_at merchant_id batch_stage e db night
  recompute_with merchant_id batch_id db (ok pending) night =
      touched merchant_id batch_stage batch_id db (recompute_batch around batch_id now pending db)
        night

  unfoldable pub settle_group : Group → Night → Night
  unfolding open_batch pending_lines recompute_with
  settle_group g night =
      let (batch_id, db) = open_batch (new_id night.db) g.merchant_id g.day holidays night.db in
      recompute_with g.merchant_id batch_id db
        (pending_lines around g.merchant_id (g.day * one_day_ms) g.lines) night

  unfoldable pub settle_groups : List Group → Night → Night
  unfolding settle_group
  settle_groups [] night = night
  settle_groups (g ∷ gs) night = settle_groups gs (settle_group g night)

  -- The condition of `findMerchantsWithPendingClawback` on a line and its batch.
  abbrev pub has_pending_clawback : SettlementLine → SettlementBatch → Bool
  has_pending_clawback l owner =
      is_none l.clawback_applied_at
      && has_status_in paid_statuses owner
      && ltb 0 (full_clawback_demand_cents l - l.clawback_cents)
      && around.is_refunded l.reservation_id

  -- `SELECT DISTINCT`.
  unfoldable pub merchants_with_pending_clawback :
      List SettlementBatch → List SettlementLine → List ℕ
  unfolding find_batch
  merchants_with_pending_clawback batches [] = []
  merchants_with_pending_clawback batches (l ∷ ls) =
      let rest = merchants_with_pending_clawback batches ls in
      elim (find_batch l.batch_id batches) [
        | none ↦ rest
        | some owner ↦
            if has_pending_clawback l owner
            then (if contains owner.merchant_id rest then rest else owner.merchant_id ∷ rest)
            else rest
      ]

  abbrev pub later_period : Option SettlementBatch → SettlementBatch → SettlementBatch
  later_period none b = b
  later_period (some best) b = if ltb b.period_start best.period_start then best else b

  -- The merchant's open batch with the latest period.
  unfoldable pub latest_open : ℕ → List SettlementBatch → Option SettlementBatch
  latest_open merchant_id [] = none
  latest_open merchant_id (b ∷ bs) =
      let rest = latest_open merchant_id bs in
      if (b.merchant_id == merchant_id) && has_status_in recomputable_settlement_statuses b
      then some (later_period rest b)
      else rest

  abbrev pub swept_batch : ℕ → ℕ → Option SettlementBatch → Ledger → ℕ × Ledger
  swept_batch merchant_id day none db = open_batch (new_id db) merchant_id day holidays db
  swept_batch merchant_id day (some b) db = (b.id, db)

  unfoldable pub sweep_merchant : ℕ → Night → Night
  unfolding latest_open open_batch recompute_batch touched istanbul_day
  sweep_merchant merchant_id night =
      let (batch_id, db) =
        swept_batch merchant_id (istanbul_day now) (latest_open merchant_id night.db.batches)
          night.db in
      touched merchant_id clawback_sweep batch_id db (recompute_batch around batch_id now [] db)
        night

  -- A merchant with fresh lines was served already.
  unfoldable pub sweep_all : List ℕ → List ℕ → Night → Night
  unfolding sweep_merchant
  sweep_all fresh [] night = night
  sweep_all fresh (m ∷ ms) night =
      sweep_all fresh ms (if contains m fresh then night else sweep_merchant m night)

  unfoldable pub run_nightly_cycle : List SettlementAnchored → Ledger → Night
  unfolding is_eligible sort_anchored group_lines settle_groups merchants_with_pending_clawback
      sweep_all
  run_nightly_cycle reservations db =
      let eligible = sort_anchored (select (is_eligible db) reservations) in
      let groups = group_lines eligible [] in
      let night = settle_groups groups (record { db = db; batch_ids = []; failures = [] }) in
      sweep_all (map (λ g. g.merchant_id) groups)
        (merchants_with_pending_clawback night.db.batches night.db.lines) night
