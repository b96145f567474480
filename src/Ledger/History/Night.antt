-- ===== src/Ledger/History/Night.antt =====
-- The nightly cycle keeps the ledger reconciled, and no merchant fails by a divergence.
use kurtar.BusinessDays.{istanbul_day, one_day_ms}
use kurtar.Prelude.{
  ℕ, ◌*◌, ◌≡◌, ◌≢◌, refl, sym, Option, none, some, List, [], ◌∷◌, All, map, Bool-cases,
  Option-cases, inl, inr, Result, ok, err, err-ok, Result-cases,
}
use kurtar.Prelude.Int.{pos}
use kurtar.Market.Rows.{find, select}
use kurtar.Settlement.Rate.{int}
use kurtar.Settlement.Batch.{compute_settlement}
use kurtar.Ledger.State.{
  SettlementBatch, Ledger, Surroundings, Error, merchant_not_found, settlement_error,
  ledger_divergence, batch_id_of, contains,
}
use kurtar.Ledger.Pass.{PendingSettlementLine, resolve_bag_fee_cents_for_merchant}
use kurtar.Ledger.Open.{EarnedLine, earned_input, open_batch, pending_lines}
use kurtar.Ledger.Nightly.{
  SettlementAnchored, Group, Night, NightlyCycleFailure, Stage, batch_stage, clawback_sweep,
  touched, recompute_with, settle_group, settle_groups, swept_batch, sweep_merchant, sweep_all,
  latest_open, run_nightly_cycle, is_eligible, sort_anchored, group_lines,
  merchants_with_pending_clawback,
}
use kurtar.Ledger.Reconciled.{IsReconciled}
use kurtar.Ledger.Reconciled.Tripwire.{recompute_batch-IsReconciled, Outcome, resolve_bag_fee-error}
use kurtar.Ledger.Reconciled.Opened.{open_batch-IsReconciled}

abbrev IsNoDivergence : NightlyCycleFailure → Type 0
IsNoDivergence f = f.error ≢ ledger_divergence

-- The ledger is reconciled, and no failure is a divergence.
abbrev pub IsGoodNight : Night → Type 0
IsGoodNight night = IsReconciled night.db × All IsNoDivergence night.failures

pending_lines-error :
    (around : Surroundings) (merchant_id period_start : ℕ) (lines : List EarnedLine) (e : Error)
    → pending_lines around merchant_id period_start lines ≡ err e
    → e ≢ ledger_divergence
unfolding pending_lines
pending_lines-error around merchant_id period_start [] e h = cc
pending_lines-error around merchant_id period_start (l ∷ ls) e h =
    elim (Option-cases (around.merchant merchant_id)) [
      | inl m ↦ let thrown : err merchant_not_found ≡ err e = rw (m, pending_lines) at h in λ q. cc
      | inr (merchant, m) ↦
          elim (Result-cases
            (resolve_bag_fee_cents_for_merchant merchant period_start around.pricings)) [
              | inl (e2, f) ↦
                  let thrown : err e2 ≡ err e = rw (m, f, pending_lines) at h in
                  let cause = resolve_bag_fee-error merchant period_start around.pricings e2 f in
                  λ q. cc
              | inr (fee, f) ↦
                  elim (Result-cases (
                    compute_settlement (record {
                      lines = map earned_input (l ∷ ls);
                      bag_fee_cents = fee;
                      membership_due_cents = int (pos 0);
                      prior_clawback_cents = int (pos 0);
                    }))) [
                      | inl (e3, c) ↦
                          let thrown : err (settlement_error e3) ≡ err e =
                            rw (m, f, c, pending_lines) at h in
                          λ q. cc
                      | inr (settlement, c) ↦
                          let returned : ok _ ≡ err e = rw (m, f, c, pending_lines) at h in
                          absurd (err-ok e _ (sym returned))
                    ]
            ]
    ]

touched-IsGoodNight :
    (merchant_id : ℕ) (stage : Stage) (batch_id : ℕ) (db : Ledger)
    (answer : Result Error (SettlementBatch × Ledger)) (night : Night)
    → IsReconciled db
    → Outcome answer
    → IsGoodNight night
    → IsGoodNight (touched merchant_id stage batch_id db answer night)
unfolding touched
touched-IsGoodNight merchant_id stage batch_id db answer night h (inl (e, f, apart)) good =
    rw f (h, (apart, good.1))
touched-IsGoodNight merchant_id stage batch_id db answer night h (inr (b, db2, f, k)) good =
    rw f (k, good.1)

module _ (around : Surroundings) (holidays : List ℕ) (new_id : Ledger → ℕ) (now : ℕ)
    (fresh : (db : Ledger) → find batch_id_of (new_id db) db.batches ≡ none) where
  recompute_with-IsGoodNight :
      (merchant_id batch_id : ℕ) (db : Ledger) (answer : Result Error (List PendingSettlementLine))
      (night : Night)
      → IsReconciled db
      → ((e : Error) → answer ≡ err e → e ≢ ledger_divergence)
      → IsGoodNight night
      → IsGoodNight (recompute_with around holidays new_id now merchant_id batch_id db answer night)
  unfolding recompute_with
  recompute_with-IsGoodNight merchant_id batch_id db (err e) night h apart good =
      (h, (apart e refl, good.1))
  recompute_with-IsGoodNight merchant_id batch_id db (ok lines) night h apart good =
      touched-IsGoodNight merchant_id batch_stage batch_id db _ night h
        (recompute_batch-IsReconciled around batch_id now lines db h) good

  settle_groups-IsGoodNight :
      (groups : List Group) (night : Night)
      → IsGoodNight night
      → IsGoodNight (settle_groups around holidays new_id now groups night)
  unfolding settle_groups settle_group
  settle_groups-IsGoodNight [] night good = good
  settle_groups-IsGoodNight (g ∷ gs) night good =
      let opened = open_batch (new_id night.db) g.merchant_id g.day holidays night.db in
      settle_groups-IsGoodNight gs _ (
        recompute_with-IsGoodNight g.merchant_id opened.0 opened.1
          (pending_lines around g.merchant_id (g.day * one_day_ms) g.lines) night
          (open_batch-IsReconciled (new_id night.db) g.merchant_id g.day holidays night.db
            (fresh night.db) good.0)
          (λ e f. pending_lines-error around g.merchant_id (g.day * one_day_ms) g.lines e f) good)

  swept_batch-IsReconciled :
      (merchant_id day : ℕ) (o : Option SettlementBatch) (db : Ledger)
      → IsReconciled db
      → IsReconciled (swept_batch around holidays new_id now merchant_id day o db).1
  swept_batch-IsReconciled merchant_id day none db h =
      open_batch-IsReconciled (new_id db) merchant_id day holidays db (fresh db) h
  swept_batch-IsReconciled merchant_id day (some b) db h = h

  sweep_merchant-IsGoodNight :
      (merchant_id : ℕ) (night : Night)
      → IsGoodNight night
      → IsGoodNight (sweep_merchant around holidays new_id now merchant_id night)
  unfolding sweep_merchant
  sweep_merchant-IsGoodNight merchant_id night good =
      let o = latest_open around holidays new_id now merchant_id night.db.batches in
      let swept =
        swept_batch around holidays new_id now merchant_id (istanbul_day now) o night.db in
      let kept = swept_batch-IsReconciled merchant_id (istanbul_day now) o night.db good.0 in
      touched-IsGoodNight merchant_id clawback_sweep swept.0 swept.1 _ night kept
        (recompute_batch-IsReconciled around swept.0 now [] swept.1 kept) good

  sweep_all-IsGoodNight :
      (served ms : List ℕ) (night : Night)
      → IsGoodNight night
      → IsGoodNight (sweep_all around holidays new_id now served ms night)
  unfolding sweep_all
  sweep_all-IsGoodNight served [] night good = good
  sweep_all-IsGoodNight served (m ∷ ms) night good =
      sweep_all-IsGoodNight served ms _ (elim (Bool-cases (contains m served)) [
        | inl t ↦ rw t good
        | inr t ↦ rw t (sweep_merchant-IsGoodNight m night good)
      ])

  -- If the identifiers of new batches are fresh, `runNightlyCycle` leaves a reconciled ledger
  -- reconciled, for any reservations, whichever merchants fail, and none of the failures that it
  -- records is a ledger divergence.
  pub run_nightly_cycle-IsGoodNight :
      (reservations : List SettlementAnchored) (db : Ledger)
      → IsReconciled db
      → IsGoodNight (run_nightly_cycle around holidays new_id now reservations db)
  unfolding run_nightly_cycle
  run_nightly_cycle-IsGoodNight reservations db h =
      let groups = group_lines (sort_anchored (select (is_eligible db) reservations)) [] in
      let dusk : Night = record { db = db; batch_ids = []; failures = [] } in
      let night = settle_groups around holidays new_id now groups dusk in
      let good : IsGoodNight dusk = (h, tt) in
      sweep_all-IsGoodNight (map (λ g. g.merchant_id) groups)
        (merchants_with_pending_clawback around holidays new_id now night.db.batches night.db.lines)
        night (settle_groups-IsGoodNight groups dusk good)
