-- ===== src/Examples/Settlement.antt =====
-- A settlement batch of two reservations, with a membership to offset and refunds to claw back.
use kurtar.Prelude.{
  ◌≡◌, ◌↔◌, ◌⊎◌, ◌+◌, ◌-◌, ◌*◌, ◌<◌, min, sum, map, true, false, refl, List, [], ◌∷◌, ok, err,
  ◌>>=◌, arith,
}
use kurtar.Prelude.Int.{pos}
use kurtar.Settlement.Rate.{int, round_kurus, apply_rate_cents, check_amount, check_positive}
use kurtar.Settlement.Batch.{
  Params, Settlement, compute_settlement, compute_lines, compute_line, line_of, batch_of,
}
use kurtar.Settlement.Batch.Accounting.{
  IsValid, compute_settlement_iff, compute_settlement-accounted, compute_settlement-chain,
}
use kurtar.Settlement.Batch.Rounding.{compute_settlement-rounding, IsWithin, withholding_base}
use kurtar.Settlement.Clawback.{
  Candidate, Allocation, unattributed, total_clawback_demand_cents, allocate_clawback,
}
use kurtar.Settlement.Clawback.Attribution.{
  IsSplit, allocate_clawback-IsSplit, allocate_clawback-unattributed, compute_settlement-allocates,
}

abbrev batch : Params
batch = record {
  lines =
      record { reservation_id = 1; gross_cents = int (pos 10000); qty = int (pos 2) }
      ∷ record { reservation_id = 2; gross_cents = int (pos 4990); qty = int (pos 1) }
      ∷ [];
  bag_fee_cents = int (pos 1500);
  membership_due_cents = int (pos 3000);
  prior_clawback_cents = int (pos 8000);
}

abbrev batch-IsValid : IsValid batch
batch-IsValid = record { fee = tt; due = tt; prior = tt; lines = ((tt, tt), ((tt, tt), tt)) }

abbrev candidates : List Candidate
candidates =
    record { reservation_id = 7; full_demand_cents = 5000; other_batches_recovered_cents = 1000 }
    ∷ record { reservation_id = 8; full_demand_cents = 2500; other_batches_recovered_cents = 0 }
    ∷ []

compute_settlement_iff_example :
    ((r : Settlement) × (compute_settlement batch ≡ ok r)) ↔ IsValid batch
compute_settlement_iff_example = compute_settlement_iff batch

compute_settlement-accounted_example :
    (r : Settlement) × (compute_settlement batch ≡ ok r)
    × (r.gross_cents + r.carried_shortfall_cents
        ≡ r.bag_fee_cents + r.bag_fee_vat_cents + r.withholding_cents + r.membership_offset_cents
          + 8000 + r.net_payout_cents)
compute_settlement-accounted_example = compute_settlement-accounted batch batch-IsValid

compute_settlement-chain_example :
    (r : Settlement) × (compute_settlement batch ≡ ok r)
    × (let left = r.gross_cents - (r.bag_fee_cents + r.bag_fee_vat_cents + r.withholding_cents) in
        (r.membership_offset_cents ≡ min 3000 left)
        × (r.refund_clawback_cents ≡ min 8000 (left - r.membership_offset_cents))
        × (r.net_payout_cents ≡ left - r.membership_offset_cents - r.refund_clawback_cents)
        × ((r.held ≡ true) ↔ (0 < r.carried_shortfall_cents))
        × ((r.net_payout_cents ≡ 0)
            ⊎ ((r.held ≡ false)
                × (r.membership_offset_cents ≡ 3000)
                × (r.refund_clawback_cents ≡ 8000))))
compute_settlement-chain_example = compute_settlement-chain batch batch-IsValid

compute_settlement-rounding_example :
    (r : Settlement) × (compute_settlement batch ≡ ok r)
    × (r.gross_cents ≡ 14990)
    × (r.bag_fee_cents ≡ 4500)
    × IsWithin 2 (20 * r.bag_fee_cents) r.bag_fee_vat_cents
    × IsWithin 2 (sum (map withholding_base r.per_line)) r.withholding_cents
compute_settlement-rounding_example = compute_settlement-rounding batch batch-IsValid

allocate_clawback-IsSplit_example :
    (a : Allocation) × (allocate_clawback (int (pos 4000)) (int (pos 1500)) candidates ≡ ok a)
    × IsSplit 4000 1500 candidates a
unfolding total_clawback_demand_cents
allocate_clawback-IsSplit_example = allocate_clawback-IsSplit 4000 1500 candidates (omega arith)

allocate_clawback-unattributed_example :
    allocate_clawback (int (pos 9000)) (int (pos 1500)) candidates ≡ err (unattributed 1000)
unfolding total_clawback_demand_cents
allocate_clawback-unattributed_example =
    allocate_clawback-unattributed (int (pos 9000)) (int (pos 1500)) candidates tt tt (omega arith)

compute_settlement-allocates_example :
    (r : Settlement) × (a : Allocation) × (compute_settlement batch ≡ ok r)
    × (allocate_clawback (int (pos r.refund_clawback_cents)) (int (pos 1500)) candidates ≡ ok a)
    × IsSplit r.refund_clawback_cents 1500 candidates a
unfolding total_clawback_demand_cents
compute_settlement-allocates_example =
    compute_settlement-allocates batch 1500 candidates batch-IsValid refl

-- 14990 gross, 4500 fees, 900 VAT and 96 withholding; 3000 offset and 6494 of the clawback; 1506
-- carried.
batch_result : (compute_settlement batch >>= λ r. ok r.carried_shortfall_cents) ≡ ok 1506
unfolding compute_settlement compute_lines compute_line line_of batch_of apply_rate_cents
    round_kurus check_amount check_positive
batch_result = refl
