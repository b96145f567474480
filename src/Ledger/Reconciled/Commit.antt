-- ===== src/Ledger/Reconciled/Commit.antt =====
-- What a recompute writes is reconciled, so its tripwire does not go off.
use kurtar.Prelude.{
  ℕ, ◌≡◌, refl, sym, ◌∙◌, true, false, none, some, List, [], ◌∷◌, inl, inr, map, arith, ltb, ◌==◌,
  ==_refl, if◌then◌else◌, All, Bool-cases,
}
use kurtar.Market.Rows.{find}
use kurtar.Market.Rows.Laws.{IsUnique, write-IsUnique, find-key}
use kurtar.Settlement.Batch.{Settlement}
use kurtar.Settlement.Clawback.{AllocationLine, Allocation}
use kurtar.Settlement.Clawback.Attribution.{IsSplit, absorbed_total}
use kurtar.Ledger.State.{
  SettlementBatch, ClawbackAllocation, Ledger, MerchantTerms, Surroundings, batch_id_of, line_id_of,
  has_status_in, paid_statuses, is_recomputable, allocated, allocated_by,
}
use kurtar.Ledger.Membership.{persist_offset}
use kurtar.Ledger.Clawback.{delete_own_allocations, insert_funded}
use kurtar.Ledger.Carried.{resolve_carried_demand_from_source, delete_own_claim, claimed_by}
use kurtar.Ledger.Pass.{PendingSettlementLine, Pass, pass_of, input_lines}
use kurtar.Ledger.Recompute.{updated_batch, commit_pass}
use kurtar.Ledger.Sums.{allocated_by-delete_own_allocations, allocated_by-insert_funded}
use kurtar.Ledger.Reconciled.{
  IsReconciled, IsLineSound, IsBatchSound, IsBacked, HasClaimant, is_backed, owner_of,
}
use kurtar.Ledger.Reconciled.Backed.{All-map, All-select, is_recomputable-not_paid}
use kurtar.Ledger.Reconciled.Lines.{
  HasSoundLines, insert_lines-HasSoundLines, write_fees-IsUnique,
  project_lines_from_ledger-IsUnique, write_fees-project, owner_of-written,
}
use kurtar.Ledger.Reconciled.Batches.{
  write-All, write-HasClaimant, write-is_backed_by, claimed_by-record_claim, All-record_claim,
}
use kurtar.Ledger.Reconciled.Funding.{lines-IsProjectable, input_lines-unallocated, answers-backed}

All-insert_funded :
    (P : ClawbackAllocation → Type 0) (b : ℕ) (answers : List AllocationLine)
    (as_ : List ClawbackAllocation)
    → All
        (λ a. P (record {
          batch_id = b;
          reservation_id = a.reservation_id;
          amount_cents = a.absorbed_cents;
        }))
        answers
    → All P as_
    → All P (insert_funded b answers as_)
unfolding insert_funded
All-insert_funded P b [] as_ one a = a
All-insert_funded P b (x ∷ answers) as_ one a =
    let rest = All-insert_funded P b answers as_ one.1 a in
    elim (Bool-cases (ltb 0 x.absorbed_cents)) [ inl t ↦ rw t (one.0, rest) | inr t ↦ rw t rest ]

module _ (around : Surroundings) (b : SettlementBatch) (merchant : MerchantTerms) (now : ℕ)
    (pending : List PendingSettlementLine) (db : Ledger) (h : IsReconciled db)
    (here : find batch_id_of b.id db.batches ≡ some b)
    (recomputable : is_recomputable b ≡ true) where
  abbrev pass : Pass
  pass = pass_of around b merchant pending db

  unpaid : has_status_in paid_statuses b ≡ false
  unpaid = is_recomputable-not_paid b recomputable

  pass_lines_sound :
      HasSoundLines db.batches db.allocations (pass_of around b merchant pending db).lines
  unfolding pass_of
  pass_lines_sound =
      insert_lines-HasSoundLines db.batches db.allocations b.id pending db.lines
        (h.unique_lines, h.lines, h.backed)

  no_source-no_demand : pass.source ≡ none → pass.carried_from_prior ≡ 0
  unfolding pass_of resolve_carried_demand_from_source
  no_source-no_demand e = rw e refl

  -- What the allocator answered for the pass.
  module _ (result : Settlement) (allocation : Allocation)
      (split : IsSplit result.refund_clawback_cents pass.carried_from_prior pass.candidates
        allocation)
      (computed : (P : ℕ → Type 0)
        → All (λ l. P l.reservation_id) (input_lines around b.id pass.lines)
        → All (λ r. P r.reservation_id) result.per_line) where
    abbrev done : SettlementBatch × Ledger
    done = commit_pass now b pass result allocation db

    abbrev vat : ℕ
    vat = (persist_offset now pass.due result.membership_offset_cents db.subscriptions).0

    abbrev rewrite_row : SettlementBatch → SettlementBatch
    rewrite_row row = updated_batch now row pass result vat allocation

    done-lines : All (IsLineSound done.1.allocations) done.1.lines
    unfolding commit_pass pass_of
    done-lines =
        let lines = pass.lines in
        let answers = split.answers in
        write_fees-project now (map line_id_of pass.locked) done.1.allocations result.per_line lines
          (computed (λ k. allocated k done.1.allocations ≡ 0)
            (input_lines-unallocated around b db.batches lines db.allocations
              allocation.per_candidate here unpaid pass_lines_sound answers))
          (lines-IsProjectable around b db.batches lines db.allocations allocation.per_candidate
            here unpaid pass_lines_sound answers now)

    done_lines-IsUnique : IsUnique line_id_of done.1.lines
    unfolding commit_pass
    done_lines-IsUnique =
        project_lines_from_ledger-IsUnique now (map line_id_of pass.locked) done.1.allocations _
          (write_fees-IsUnique result.per_line pass.lines pass_lines_sound.0)

    carry_backing :
        (k c : ℕ)
        → is_backed db.batches pass.lines k c ≡ true
        → is_backed done.1.batches done.1.lines k c ≡ true
    unfolding commit_pass is_backed updated_batch
    carry_backing k c e =
        rw
          (owner_of-written now (map line_id_of pass.locked) done.1.allocations k result.per_line
            pass.lines)
          (write-is_backed_by b db.batches rewrite_row here (λ x. refl) (λ x. refl)
            (owner_of k pass.lines) c unpaid e)

    done-IsBacked : All (IsBacked done.1.batches done.1.lines) done.1.allocations
    unfolding commit_pass pass_of delete_own_allocations
    done-IsBacked =
        All-insert_funded (IsBacked done.1.batches done.1.lines) b.id allocation.per_candidate
          pass.others
          (All-map (λ a. is_backed db.batches pass.lines a.reservation_id b.id ≡ true) _
            allocation.per_candidate (λ a e. carry_backing a.reservation_id b.id e)
            (answers-backed around b db.batches pass.lines db.allocations allocation.per_candidate
              here unpaid pass_lines_sound split.answers))
          (All-map (λ a. IsBacked db.batches pass.lines a × _) _ pass.others
            (λ a both. carry_backing a.reservation_id a.batch_id both.0)
            (All-select (IsBacked db.batches pass.lines) _ db.allocations pass_lines_sound.2))

    claims_after :
        (c : ℕ)
        → claimed_by c done.1.claims
          ≡ (if b.id == c then pass.carried_from_prior else claimed_by c db.claims)
    unfolding commit_pass pass_of
    claims_after c =
        claimed_by-record_claim b.id c pass.source pass.carried_from_prior db.claims
          no_source-no_demand

    allocations_after :
        (c : ℕ)
        → allocated_by c done.1.allocations ≡ (
            if b.id == c
            then absorbed_total allocation.per_candidate
            else allocated_by c db.allocations)
    unfolding commit_pass pass_of
    allocations_after c =
        let inserted =
          allocated_by-insert_funded b.id c allocation.per_candidate
            (delete_own_allocations b.id db.allocations) in
        let deleted = allocated_by-delete_own_allocations b.id c db.allocations in
        ground (arith, inserted, deleted)

    row-IsBatchSound :
        (row : SettlementBatch)
        → row.id ≡ b.id
        → IsBatchSound done.1.allocations done.1.claims (rewrite_row row)
    unfolding updated_batch
    row-IsBatchSound row same =
        let exhausted = split.exhausted in
        let bounded = split.external_first.0 in
        let claims = claims_after row.id in
        let allocations = allocations_after row.id in
        let own : (b.id == row.id) ≡ true = rw same (==_refl b.id) in
        let claims0 : claimed_by row.id done.1.claims ≡ pass.carried_from_prior =
          rw own at claims in
        let allocations0 : allocated_by row.id done.1.allocations
            ≡ absorbed_total allocation.per_candidate =
          rw own at allocations in
        record {
          claimed = sym claims0;
          absorbed = omega arith;
          withheld = omega (arith, allocations0, exhausted, bounded);
        }

    done-batches : All (IsBatchSound done.1.allocations done.1.claims) done.1.batches
    unfolding commit_pass
    done-batches =
        write-All batch_id_of (IsBatchSound db.allocations db.claims)
          (IsBatchSound done.1.allocations done.1.claims) b.id rewrite_row db.batches
          h.unique_batches h.batches
          (λ x other s.
            let apart : (b.id == x.id) ≡ false = ground arith in
            let claims : claimed_by x.id done.1.claims ≡ claimed_by x.id db.claims =
              rw apart at (claims_after x.id) in
            let allocations : allocated_by x.id done.1.allocations
                ≡ allocated_by x.id db.allocations =
              rw apart at (allocations_after x.id) in
            record {
              claimed = s.claimed ∙ sym claims;
              absorbed = s.absorbed;
              withheld = rw allocations s.withheld;
            })
          (λ x e. row-IsBatchSound x (find-key batch_id_of b.id db.batches x e))

    done-claimants : All (HasClaimant done.1.batches) done.1.claims
    unfolding commit_pass pass_of delete_own_claim updated_batch
    done-claimants =
        All-record_claim (HasClaimant done.1.batches) b.id pass.source pass.carried_from_prior
          pass.other_claims
          (λ s.
            write-HasClaimant b db.batches rewrite_row here (λ x. refl) (λ x. refl)
              (record { claimant_batch_id = b.id; source_batch_id = s; amount_cents = 0 })
              (rw here refl))
          (All-map (λ c. HasClaimant db.batches c × _) (HasClaimant done.1.batches)
            pass.other_claims
            (λ c both.
              write-HasClaimant b db.batches rewrite_row here (λ x. refl) (λ x. refl) c both.0)
            (All-select (HasClaimant db.batches) _ db.claims h.claimants))

    pub commit_pass-IsReconciled : IsReconciled done.1
    unfolding commit_pass updated_batch
    commit_pass-IsReconciled = record {
      unique_batches =
          write-IsUnique batch_id_of b.id (λ row. true) rewrite_row db.batches (λ x. refl)
            h.unique_batches;
      unique_lines = done_lines-IsUnique;
      backed = done-IsBacked;
      lines = done-lines;
      batches = done-batches;
      claimants = done-claimants;
    }

    pub commit_pass-IsBatchSound : IsBatchSound done.1.allocations done.1.claims done.0
    unfolding commit_pass
    commit_pass-IsBatchSound = row-IsBatchSound b refl
