-- ===== src/Ledger/History/SameAmount.antt =====
-- settlement-payout.service.ts: a payout that is retried asks the provider for the same amount.
use kurtar.Prelude.{
  ℕ, ◌≡◌, refl, sym, ◌∙◌, ap, true, false, some, List, [], ◌∷◌, All, ◌==◌, ==_refl, Bool-cases,
  Option-cases, inl, inr, ◌⊎◌, Result, ok, err, err-ok,
}
use kurtar.Market.Rows.{find, write, matched}
use kurtar.Market.Rows.Laws.{find-write, find-key, found-matched}
use kurtar.Status.Settlement.{approved}
use kurtar.Ledger.State.{
  SettlementBatch, Ledger, Error, batch_not_found, find_batch, batch_id_of, has_status_in, is_none,
}
use kurtar.Ledger.Payout.{
  PayoutProvider, PayoutCall, call_of, call_provider, can_stamp, stamp_row, execute_read,
  execute_one,
}
use kurtar.Ledger.History.{Reaches}
use kurtar.Ledger.History.Kept.{IsSamePayout, call_provider-IsKept}
use kurtar.Ledger.History.Frozen.{payout_attempted-IsKept}

-- The batch is there with its payout attempted, and what the call asked for as its amount.
abbrev IsAttempted : PayoutCall → Ledger → Type 0
IsAttempted call db =
    (b : SettlementBatch) × (find batch_id_of call.batch_id db.batches ≡ some b)
    × (is_none b.payout_attempted_at ≡ false)
    × (b.id ≡ call.batch_id)
    × (b.net_payout_cents ≡ call.amount_cents)
    × (b.merchant_id ≡ call.merchant_id)

-- What a run of the payout returned: no call, or one for the row that it read.
abbrev IsCallOf : SettlementBatch → List PayoutCall × Ledger → Type 0
IsCallOf b answer =
    (answer.0 ≡ []) ⊎ ((answer.0 ≡ call_of b ∷ []) × IsAttempted (call_of b) answer.1)

call_provider-IsCallOf :
    (provider : PayoutProvider) (now : ℕ) (read b : SettlementBatch) (db : Ledger)
    → is_none b.payout_attempted_at ≡ false
    → find batch_id_of b.id db.batches ≡ some b
    → call_of read ≡ call_of b
    → IsCallOf read (call_provider provider now read db)
unfolding call_provider
call_provider-IsCallOf provider now read b db stamped here same =
    let (c, found, kept) = call_provider-IsKept provider now read db b stamped here in
    let ids : b.id ≡ read.id = ap (λ x. x.batch_id) (sym same) in
    inr (
      refl,
      (
        c,
        ap (λ k. find batch_id_of k (call_provider provider now read db).1.batches) (sym ids)
            ∙ found,
        rw kept.stamp stamped,
        kept.id ∙ ids,
        kept.amount ∙ ap (λ x. x.amount_cents) (sym same),
        kept.payee ∙ ap (λ x. x.merchant_id) (sym same),
      ),
    )

execute_read-IsCallOf :
    (provider : PayoutProvider) (now : ℕ) (b : SettlementBatch) (db : Ledger)
    → find batch_id_of b.id db.batches ≡ some b
    → IsCallOf b (execute_read provider now b db)
unfolding execute_read
execute_read-IsCallOf provider now b db here = elim (Bool-cases (has_status_in (approved ∷ []) b)) [
  | inr t ↦ rw t (inl refl)
  | inl t ↦ elim (Bool-cases (b.net_payout_cents == 0)) [
    | inl z ↦ rw (t, z) (inl refl)
    | inr z ↦ elim (Bool-cases (is_none b.payout_attempted_at)) [
      | inr a ↦ rw (t, z, a) (call_provider-IsCallOf provider now b b db a here refl)
      | inl a ↦ elim (Bool-cases (matched batch_id_of b.id can_stamp db.batches)) [
        | inr m ↦ rw (t, z, a, m) (inl refl)
        | inl m ↦
            let batches = write batch_id_of b.id can_stamp (stamp_row now) db.batches in
            let after =
              find-write batch_id_of b.id b.id can_stamp (stamp_row now) db.batches (λ x. refl) in
            let guarded : can_stamp b ≡ true =
              sym (found-matched batch_id_of b.id can_stamp db.batches b here) ∙ m in
            let found : find batch_id_of b.id batches ≡ some (stamp_row now b) =
              rw (after, ==_refl b.id, here, guarded) refl in
            rw (t, z, a, m)
              (call_provider-IsCallOf provider now b (stamp_row now b)
                (record db { batches = batches }) refl found refl)
      ]
    ]
  ]
]

-- The row that `executeOne` read, and what it did with it.
execute_one-read :
    (provider : PayoutProvider) (now id : ℕ) (db : Ledger) (answer : List PayoutCall × Ledger)
    → execute_one provider now id db ≡ ok answer
    → (b : SettlementBatch) × (find batch_id_of id db.batches ≡ some b) × IsCallOf b answer
unfolding execute_one find_batch
execute_one-read provider now id db answer e =
    elim (Option-cases (find batch_id_of id db.batches)) [
      | inl n ↦
          let thrown : ◌≡◌ {A = Result Error (List PayoutCall × Ledger)} (err batch_not_found)
              (ok answer) =
            rw (n, execute_one) at e in
          absurd (err-ok batch_not_found answer thrown)
      | inr (b, n) ↦
          let returned : ◌≡◌ {A = Result Error (List PayoutCall × Ledger)}
              (ok (execute_read provider now b db)) (ok answer) =
            rw (n, execute_one) at e in
          let same : execute_read provider now b db ≡ answer = cc in
          let key = find-key batch_id_of id db.batches b n in
          let here = ap (λ k. find batch_id_of k db.batches) key ∙ n in
          (b, n, rw same at (execute_read-IsCallOf provider now b db here))
    ]

abbrev pub IsSameCall : PayoutCall → PayoutCall → Type 0
IsSameCall call c =
    (c.batch_id ≡ call.batch_id)
    × (c.amount_cents ≡ call.amount_cents)
    × (c.merchant_id ≡ call.merchant_id)

-- If `executeOne`, with no other transaction inside it, called the provider for a batch, and any
-- transactions followed, then every call that a later run of it makes for the batch, again with no
-- other transaction inside it, is for the same amount and the same merchant.
pub execute_one-IsSameCall :
    (provider provider2 : PayoutProvider) (now now2 id : ℕ) (db db1 db2 db3 : Ledger)
    (call : PayoutCall) (calls calls2 : List PayoutCall)
    → execute_one provider now id db ≡ ok (call ∷ calls, db1)
    → Reaches db1 db2
    → execute_one provider2 now2 id db2 ≡ ok (calls2, db3)
    → All (IsSameCall call) calls2
execute_one-IsSameCall provider provider2 now now2 id db db1 db2 db3 call calls calls2 e r e2 =
    let (b, n, first) = execute_one-read provider now id db (call ∷ calls, db1) e in
    let (b2, n2, second) = execute_one-read provider2 now2 id db2 (calls2, db3) e2 in
    elim second [
      | inl nothing ↦ rw nothing tt
      | inr (only, _) ↦ elim first [
        | inl nothing ↦ absurd (cons-nil call calls nothing)
        | inr (asked, (c, found, stamped, ids, amount, payee)) ↦
            let made : call ≡ call_of b = cc in
            let key = find-key batch_id_of id db.batches b n in
            let here = ap (λ k. find batch_id_of k db1.batches) ids ∙ found in
            let (d, later, kept) = payout_attempted-IsKept db1 db2 c r stamped here in
            let keys = ap (λ k. find batch_id_of k db2.batches) (ids ∙ key) in
            let rows : some d ≡ some b2 = sym later ∙ keys ∙ n2 in
            let one : d ≡ b2 = cc in
            let kept2 : IsSamePayout c b2 = rw one at kept in
            rw (only, made) ((kept2.id ∙ ids, kept2.amount ∙ amount, kept2.payee ∙ payee), tt)
      ]
    ]
  where
    cons-nil : (x : PayoutCall) (xs : List PayoutCall) → ◌≡◌ {A = List PayoutCall} (x ∷ xs) [] → ⊥
    cons-nil x xs h = cc
