-- ===== src/Ledger/Reconciled/Lines.antt =====
-- What the writes to the lines keep: the insertion of new ones, the fees, and the projection.
use kurtar.Prelude.{
  ℕ, ◌≤◌, ◌≡◌, refl, sym, ◌∙◌, true, false, ◌&&◌, not, Option, none, some, List, [], ◌∷◌, ◌⊎◌, inl,
  inr, map, arith, ltb, leb, ◌==◌, ==_iff, if◌then◌else◌, All, Bool-cases, Option-cases,
}
use kurtar.Market.Rows.{find, write}
use kurtar.Market.Rows.Laws.{IsUnique, All-write, write-IsUnique}
use kurtar.Settlement.Batch.{LineResult}
use kurtar.Ledger.State.{
  SettlementBatch, SettlementLine, ClawbackAllocation, find_line, line_id_of, is_none,
  full_clawback_demand_cents, allocated, contains,
}
use kurtar.Ledger.Clawback.{projected, or_now, project_lines_from_ledger}
use kurtar.Ledger.Pass.{PendingSettlementLine, new_line, insert_lines}
use kurtar.Ledger.Recompute.{write_fees}
use kurtar.Ledger.Reconciled.{IsLineSound, IsBacked, is_backed, owner_of}
use kurtar.Ledger.Reconciled.Backed.{All-map, unfound-allocated}

module _ (batches : List SettlementBatch) (as_ : List ClawbackAllocation) where
  -- The part of the invariant that the new lines must keep.
  abbrev pub HasSoundLines : List SettlementLine → Type 0
  HasSoundLines lines =
      IsUnique line_id_of lines × All (IsLineSound as_) lines × All (IsBacked batches lines) as_

  insert_line-HasSoundLines :
      (b : ℕ) (p : PendingSettlementLine) (lines : List SettlementLine)
      → find line_id_of p.reservation_id lines ≡ none
      → HasSoundLines lines
      → HasSoundLines (new_line b p ∷ lines)
  unfolding is_backed owner_of find
  insert_line-HasSoundLines b p lines e h =
      let (unique, sound, backed) = h in
      let nothing = unfound-allocated batches lines p.reservation_id as_ backed e in
      (
        (e, unique),
        (
          record {
            stored = sym nothing;
            within = omega (arith, nothing);
            marked = rw nothing (ground arith);
          },
          sound,
        ),
        All-map (IsBacked batches lines) (IsBacked batches (new_line b p ∷ lines)) as_
            (λ a k. elim (Bool-cases (p.reservation_id == a.reservation_id)) [
              | inl t ↦
                  let same : p.reservation_id ≡ a.reservation_id = (==_iff _ _).0 t in
                  let impossible : false ≡ true = rw (sym same, e) at k in cc
              | inr t ↦ rw t k
            ])
            backed,
      )

  pub insert_lines-HasSoundLines :
      (b : ℕ) (ps : List PendingSettlementLine) (lines : List SettlementLine)
      → HasSoundLines lines
      → HasSoundLines (insert_lines b ps lines)
  unfolding insert_lines find_line
  insert_lines-HasSoundLines b [] lines h = h
  insert_lines-HasSoundLines b (p ∷ ps) lines h =
      elim (Option-cases (find line_id_of p.reservation_id lines)) [
        | inl e ↦ rw e (
            insert_lines-HasSoundLines b ps (new_line b p ∷ lines)
              (insert_line-HasSoundLines b p lines e h))
        | inr (l, e) ↦ rw e (insert_lines-HasSoundLines b ps lines h)
      ]

abbrev with_fees : LineResult → SettlementLine → SettlementLine
with_fees r l = record l {
  bag_fee_cents = r.bag_fee_cents;
  bag_fee_vat_cents = r.bag_fee_vat_cents;
  withholding_cents = r.withholding_cents;
}

write_fees-All :
    (Q : SettlementLine → Type 0) (rs : List LineResult) (lines : List SettlementLine)
    → All
        (λ r. (l : SettlementLine) → l.reservation_id ≡ r.reservation_id → Q l → Q (with_fees r l))
        rs
    → All Q lines
    → All Q (write_fees rs lines)
unfolding write_fees
write_fees-All Q [] lines steps a = a
write_fees-All Q (r ∷ rs) lines steps a = write_fees-All Q rs _ steps.1 (
    All-write line_id_of Q r.reservation_id (λ l. true) (with_fees r) lines
      (λ l e t q. steps.0 l e q) a)

pub write_fees-IsUnique :
    (rs : List LineResult) (lines : List SettlementLine)
    → IsUnique line_id_of lines
    → IsUnique line_id_of (write_fees rs lines)
unfolding write_fees
write_fees-IsUnique [] lines u = u
write_fees-IsUnique (r ∷ rs) lines u =
    write_fees-IsUnique rs _
      (write-IsUnique line_id_of r.reservation_id (λ l. true) (with_fees r) lines (λ l. refl) u)

owner_of-write :
    (k : ℕ) (r : LineResult) (lines : List SettlementLine)
    → owner_of k (write line_id_of r.reservation_id (λ l. true) (with_fees r) lines)
      ≡ owner_of k lines
unfolding owner_of write find
owner_of-write k r [] = refl
owner_of-write k r (l ∷ lines) = let rest = owner_of-write k r lines in ground (arith, rest)

owner_of-write_fees :
    (k : ℕ) (rs : List LineResult) (lines : List SettlementLine)
    → owner_of k (write_fees rs lines) ≡ owner_of k lines
unfolding write_fees
owner_of-write_fees k [] lines = refl
owner_of-write_fees k (r ∷ rs) lines = owner_of-write_fees k rs _ ∙ owner_of-write k r lines

module _ (now : ℕ) (ids : List ℕ) (as_ : List ClawbackAllocation) where
  abbrev project : SettlementLine → SettlementLine
  project l = if contains l.reservation_id ids then projected now as_ l else l

  project_lines-find :
      (k : ℕ) (lines : List SettlementLine)
      → find line_id_of k lines ≡ none
      → find line_id_of k (map project lines) ≡ none
  unfolding find
  project_lines-find k [] e = refl
  project_lines-find k (l ∷ lines) e = ground (arith, project_lines-find k lines)

  pub project_lines_from_ledger-IsUnique :
      (lines : List SettlementLine)
      → IsUnique line_id_of lines
      → IsUnique line_id_of (project_lines_from_ledger now ids as_ lines)
  unfolding project_lines_from_ledger
  project_lines_from_ledger-IsUnique [] u = tt
  project_lines_from_ledger-IsUnique (l ∷ lines) u =
      let rest = project_lines_from_ledger-IsUnique lines u.1 in
      elim (Bool-cases (contains l.reservation_id ids)) [
        | inl t ↦ rw t (project_lines-find l.reservation_id lines u.0, rest)
        | inr t ↦ rw t (project_lines-find l.reservation_id lines u.0, rest)
      ]

  pub owner_of-project_lines_from_ledger :
      (k : ℕ) (lines : List SettlementLine)
      → owner_of k (project_lines_from_ledger now ids as_ lines) ≡ owner_of k lines
  unfolding project_lines_from_ledger owner_of find
  owner_of-project_lines_from_ledger k [] = refl
  owner_of-project_lines_from_ledger k (l ∷ lines) =
      let rest = owner_of-project_lines_from_ledger k lines in ground (arith, rest)

  -- Before the projection a line has to be within its demand, and sound unless it is projected.
  abbrev pub IsProjectable : SettlementLine → Type 0
  IsProjectable l =
      (allocated l.reservation_id as_ ≤ full_clawback_demand_cents l)
      × ((contains l.reservation_id ids ≡ true) ⊎ IsLineSound as_ l)

  marked_by :
      (full recovered : ℕ) (at : Option ℕ)
      → not (is_none (if ltb 0 full && leb full recovered then or_now now at else none))
        ≡ (ltb 0 full && leb full recovered)
  marked_by full recovered none = ground arith
  marked_by full recovered (some at) = ground arith

  project-IsLineSound : (l : SettlementLine) → IsProjectable l → IsLineSound as_ (project l)
  project-IsLineSound l (within, found) = elim (Bool-cases (contains l.reservation_id ids)) [
    | inl t ↦ rw t (record {
      stored = refl;
      within = within;
      marked =
          marked_by (full_clawback_demand_cents l) (allocated l.reservation_id as_)
            l.clawback_applied_at;
    })
    | inr t ↦ elim found [
      | inl other ↦ let impossible : false ≡ true = sym t ∙ other in cc
      | inr sound ↦ rw t sound
    ]
  ]

  project_lines_from_ledger_sound :
      (lines : List SettlementLine)
      → All IsProjectable lines
      → All (IsLineSound as_) (project_lines_from_ledger now ids as_ lines)
  unfolding project_lines_from_ledger
  project_lines_from_ledger_sound [] a = tt
  project_lines_from_ledger_sound (l ∷ lines) a =
      (project-IsLineSound l a.0, project_lines_from_ledger_sound lines a.1)

  unallocated-marked :
      (l : SettlementLine) (r : LineResult)
      → allocated l.reservation_id as_ ≡ 0
      → IsLineSound as_ l
      → IsLineSound as_ (with_fees r l)
  unallocated-marked l r e sound = record {
    stored = sound.stored;
    within = omega (arith, e);
    marked =
        let before = sound.marked in
        let before0 : not (is_none l.clawback_applied_at)
            ≡ (ltb 0 (full_clawback_demand_cents l) && leb (full_clawback_demand_cents l) 0) =
          rw e at before in
        rw e (ground arith);
  }

  -- The fees of lines without allocations, and then the projection, make all the lines sound.
  pub write_fees-project :
      (rs : List LineResult) (lines : List SettlementLine)
      → All (λ r. allocated r.reservation_id as_ ≡ 0) rs
      → All IsProjectable lines
      → All (IsLineSound as_) (project_lines_from_ledger now ids as_ (write_fees rs lines))
  write_fees-project rs lines none_allocated a = project_lines_from_ledger_sound _ (
      write_fees-All IsProjectable rs lines
        (All-map (λ r. allocated r.reservation_id as_ ≡ 0) _ rs
          (λ r e l same q.
            let nothing : allocated l.reservation_id as_ ≡ 0 = rw same e in
            (
              omega (arith, nothing),
              elim q.1 [
                | inl named ↦ inl named
                | inr sound ↦ inr (unallocated-marked l r nothing sound)
              ],
            ))
          none_allocated)
        a)

  pub owner_of-written :
      (k : ℕ) (rs : List LineResult) (lines : List SettlementLine)
      → owner_of k (project_lines_from_ledger now ids as_ (write_fees rs lines)) ≡ owner_of k lines
  owner_of-written k rs lines =
      owner_of-project_lines_from_ledger k _ ∙ owner_of-write_fees k rs lines
