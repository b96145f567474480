-- ===== src/Ledger/History/Kept.antt =====
-- The admin's actions and the payout keep the payout of a batch that was attempted.
use kurtar.Prelude.{
  ℕ, ◌≡◌, refl, sym, ap, ◌∙◌, Bool, true, false, Option, none, some, List, [], ◌∷◌, ◌==◌,
  Bool-cases, Option-cases, inl, inr,
}
use kurtar.Market.Rows.{find, write, matched}
use kurtar.Market.Rows.Laws.{find-write}
use kurtar.Prelude.{◌⊎◌}
use kurtar.Ledger.Reconciled.Guarded.{IsStatusUpdate}
use kurtar.Ledger.History.Reconciled.{approve_row-IsStatusUpdate, hold_row-IsStatusUpdate}
use kurtar.Ledger.State.{
  paid_statuses, SettlementBatch, Ledger, AuditAction, TransferRef, psp_transfer,
  no_transfer_zero_net, approved_batch, held_batch, settled_batch, find_batch, batch_id_of,
  has_status_in, is_none,
}
use kurtar.Status.Settlement.{approved}
use kurtar.Ledger.Admin.{
  guarded_update, admin_get, approve_guarded, approve_row, approved_from_statuses, can_hold,
  hold_row, admin_hold, admin_mark_settled, settle_row, settled_from_statuses,
}
use kurtar.Ledger.Payout.{
  PayoutProvider, sent_from_statuses, sent_row, mark_sent, publish_sent, call_provider, can_stamp,
  stamp_row, execute_read,
}

-- The amount, the payee and the stamp of a batch; and if it was paid out, that it is.
pub record IsSamePayout (b c : SettlementBatch) : Type 0 where
  pub id : c.id ≡ b.id
  pub amount : c.net_payout_cents ≡ b.net_payout_cents
  pub payee : c.merchant_id ≡ b.merchant_id
  pub stamp : c.payout_attempted_at ≡ b.payout_attempted_at
  pub paid : (has_status_in paid_statuses b ≡ false) ⊎ (has_status_in paid_statuses c ≡ true)

pub same_payout : (b : SettlementBatch) → IsSamePayout b b
same_payout b = record {
  id = refl;
  amount = refl;
  payee = refl;
  stamp = refl;
  paid = elim (Bool-cases (has_status_in paid_statuses b)) [ inl t ↦ inr t | inr t ↦ inl t ];
}

paid_kept :
    (guard_ : SettlementBatch → Bool) (f : SettlementBatch → SettlementBatch)
    → IsStatusUpdate guard_ f
    → (x : SettlementBatch) → guard_ x ≡ true
    → (has_status_in paid_statuses x ≡ false) ⊎ (has_status_in paid_statuses (f x) ≡ true)
paid_kept guard_ f u x g = elim (Bool-cases (has_status_in paid_statuses x)) [
  | inl t ↦ inr (u.paid x g t)
  | inr t ↦ inl t
]

-- The batch is in the table, with the same payout.
abbrev pub IsKept : SettlementBatch → List SettlementBatch → Type 0
IsKept b batches =
    (c : SettlementBatch) × (find batch_id_of b.id batches ≡ some c) × IsSamePayout b c

-- A guarded write that keeps the payout of a stamped batch.
abbrev Keeps : (SettlementBatch → Bool) → (SettlementBatch → SettlementBatch) → Type 0
Keeps guard_ f =
    (x : SettlementBatch)
    → is_none x.payout_attempted_at ≡ false
    → guard_ x ≡ true
    → IsSamePayout x (f x)

write-IsKept :
    (guard_ : SettlementBatch → Bool) (f : SettlementBatch → SettlementBatch) (k : ℕ)
    (batches : List SettlementBatch) (b : SettlementBatch)
    → ((x : SettlementBatch) → (f x).id ≡ x.id)
    → Keeps guard_ f
    → is_none b.payout_attempted_at ≡ false
    → find batch_id_of b.id batches ≡ some b
    → IsKept b (write batch_id_of k guard_ f batches)
write-IsKept guard_ f k batches b keep_id keeps stamped here =
    let after = find-write batch_id_of b.id k guard_ f batches keep_id in
    elim (Bool-cases (k == b.id)) [
      | inr t ↦ (b, rw (after, t, here) refl, same_payout b)
      | inl t ↦ elim (Bool-cases (guard_ b)) [
        | inl g ↦ (f b, rw (after, t, here, g) refl, keeps b stamped g)
        | inr g ↦ (b, rw (after, t, here, g) refl, same_payout b)
      ]
    ]

guarded_update-IsKept :
    (admin_id : ℕ) (action : AuditAction) (id : ℕ) (guard_ : SettlementBatch → Bool)
    (f : SettlementBatch → SettlementBatch) (db : Ledger) (b : SettlementBatch)
    → ((x : SettlementBatch) → (f x).id ≡ x.id)
    → Keeps guard_ f
    → is_none b.payout_attempted_at ≡ false
    → find batch_id_of b.id db.batches ≡ some b
    → IsKept b (guarded_update admin_id action id guard_ f db).1.batches
unfolding guarded_update
guarded_update-IsKept admin_id action id guard_ f db b keep_id keeps stamped here =
    elim (Bool-cases (matched batch_id_of id guard_ db.batches)) [
      | inl t ↦ rw t (write-IsKept guard_ f id db.batches b keep_id keeps stamped here)
      | inr t ↦ rw t (b, here, same_payout b)
    ]

admin_get-batches :
    (id admin_id : ℕ) (db : Ledger) → (admin_get id admin_id db).0.batches ≡ db.batches
unfolding admin_get find_batch
admin_get-batches id admin_id db = elim (Option-cases (find batch_id_of id db.batches)) [
  | inl e ↦ rw (e, admin_get) refl
  | inr (b, e) ↦ rw (e, admin_get) refl
]

module _ (b : SettlementBatch) (stamped : is_none b.payout_attempted_at ≡ false) where
  pub approve_guarded-IsKept :
      (id admin_id : ℕ) (db : Ledger)
      → find batch_id_of b.id db.batches ≡ some b
      → IsKept b (approve_guarded id admin_id db).0.batches
  unfolding approve_guarded
  approve_guarded-IsKept id admin_id db here =
      let moved =
        guarded_update admin_id approved_batch id (has_status_in approved_from_statuses) approve_row
          db in
      let kept =
        guarded_update-IsKept admin_id approved_batch id (has_status_in approved_from_statuses)
          approve_row db b (λ x. refl)
          (λ x s g. record {
            id = refl;
            amount = refl;
            payee = refl;
            stamp = refl;
            paid =
                paid_kept (has_status_in approved_from_statuses) approve_row
                  approve_row-IsStatusUpdate x g;
          })
          stamped here in
      elim (Bool-cases moved.0) [
        | inl t ↦ rw (t, admin_get-batches id admin_id moved.1) kept
        | inr t ↦ rw t kept
      ]

  pub admin_hold-IsKept :
      (id admin_id : ℕ) (db : Ledger)
      → find batch_id_of b.id db.batches ≡ some b
      → IsKept b (admin_hold id admin_id db).0.batches
  unfolding admin_hold
  admin_hold-IsKept id admin_id db here =
      let moved = guarded_update admin_id held_batch id can_hold hold_row db in
      let kept =
        guarded_update-IsKept admin_id held_batch id can_hold hold_row db b (λ x. refl)
          (λ x s g. record {
            id = refl;
            amount = refl;
            payee = refl;
            stamp = refl;
            paid = paid_kept can_hold hold_row hold_row-IsStatusUpdate x g;
          })
          stamped here in
      elim (Bool-cases moved.0) [
        | inl t ↦ rw (t, admin_get-batches id admin_id moved.1) kept
        | inr t ↦ rw t kept
      ]

  pub admin_mark_settled-IsKept :
      (id admin_id now : ℕ) (db : Ledger)
      → find batch_id_of b.id db.batches ≡ some b
      → IsKept b (admin_mark_settled id admin_id now db).0.batches
  unfolding admin_mark_settled
  admin_mark_settled-IsKept id admin_id now db here =
      let moved =
        guarded_update admin_id settled_batch id (has_status_in settled_from_statuses)
          (settle_row now) db in
      let kept =
        guarded_update-IsKept admin_id settled_batch id (has_status_in settled_from_statuses)
          (settle_row now) db b (λ x. refl)
          (λ x s g. record {
            id = refl;
            amount = refl;
            payee = refl;
            stamp = refl;
            paid = inr refl;
          })
          stamped here in
      elim (Bool-cases moved.0) [
        | inl t ↦ rw (t, admin_get-batches id admin_id moved.1) kept
        | inr t ↦ rw t kept
      ]

  publish_sent-batches :
      (ref : TransferRef) (o : Option SettlementBatch) (db : Ledger)
      → (publish_sent ref o db).batches ≡ db.batches
  publish_sent-batches ref none db = refl
  publish_sent-batches ref (some x) db = refl

  mark_sent-IsKept :
      (now id : ℕ) (ref : TransferRef) (db : Ledger)
      → find batch_id_of b.id db.batches ≡ some b
      → IsKept b (mark_sent now id ref db).batches
  unfolding mark_sent find_batch
  mark_sent-IsKept now id ref db here =
      elim (Bool-cases (matched batch_id_of id (has_status_in sent_from_statuses) db.batches)) [
        | inr t ↦ rw t (b, here, same_payout b)
        | inl t ↦
            let batches =
              write batch_id_of id (has_status_in sent_from_statuses) (sent_row now ref)
                db.batches in
            rw
              (
                t,
                publish_sent-batches ref (find batch_id_of id batches)
                    (record db { batches = batches }),
              )
              (write-IsKept (has_status_in sent_from_statuses) (sent_row now ref) id db.batches b
                (λ x. refl)
                (λ x s g. record {
                  id = refl;
                  amount = refl;
                  payee = refl;
                  stamp = refl;
                  paid = inr refl;
                })
                stamped here)
      ]

IsSamePayout-trans :
    (b c d : SettlementBatch) → IsSamePayout b c → IsSamePayout c d → IsSamePayout b d
IsSamePayout-trans b c d p q = record {
  id = q.id ∙ p.id;
  amount = q.amount ∙ p.amount;
  payee = q.payee ∙ p.payee;
  stamp = q.stamp ∙ p.stamp;
  paid = elim p.paid [
    | inl unpaid ↦ inl unpaid
    | inr paid ↦ elim q.paid [
      | inl unpaid ↦ let impossible : true ≡ false = sym paid ∙ unpaid in cc
      | inr still ↦ inr still
    ]
  ];
}

pub IsKept-trans :
    (b : SettlementBatch) (l l2 : List SettlementBatch)
    → is_none b.payout_attempted_at ≡ false
    → IsKept b l
    → ((c : SettlementBatch)
        → is_none c.payout_attempted_at ≡ false
        → find batch_id_of c.id l ≡ some c
        → IsKept c l2)
    → IsKept b l2
IsKept-trans b l l2 stamped (c, found, same) next =
    let (d, found2, same2) =
      next c (rw same.stamp stamped) (ap (λ k. find batch_id_of k l) same.id ∙ found) in
    (d, ap (λ k. find batch_id_of k l2) (sym same.id) ∙ found2, IsSamePayout-trans b c d same same2)

pub call_provider-IsKept :
    (provider : PayoutProvider) (now : ℕ) (read : SettlementBatch) (db : Ledger)
    (b : SettlementBatch)
    → is_none b.payout_attempted_at ≡ false
    → find batch_id_of b.id db.batches ≡ some b
    → IsKept b (call_provider provider now read db).1.batches
unfolding call_provider
call_provider-IsKept provider now read db b stamped here =
    elim (Option-cases (provider read.merchant_id read.net_payout_cents read.id)) [
      | inl e ↦ rw e (b, here, same_payout b)
      | inr (ref, e) ↦ rw e (mark_sent-IsKept b stamped now read.id (psp_transfer ref) db here)
    ]

can_stamp-Keeps : (now : ℕ) → Keeps can_stamp (stamp_row now)
can_stamp-Keeps now x stamped g = elim (Bool-cases (has_status_in (approved ∷ []) x)) [
  | inl t ↦ let impossible : false ≡ true = rw (t, stamped) at g in cc
  | inr t ↦ let impossible : false ≡ true = rw t at g in cc
]

pub execute_read-IsKept :
    (provider : PayoutProvider) (now : ℕ) (read : SettlementBatch) (db : Ledger)
    (b : SettlementBatch)
    → is_none b.payout_attempted_at ≡ false
    → find batch_id_of b.id db.batches ≡ some b
    → IsKept b (execute_read provider now read db).1.batches
unfolding execute_read
execute_read-IsKept provider now read db b stamped here =
    let unchanged : IsKept b db.batches = (b, here, same_payout b) in
    elim (Bool-cases (has_status_in (approved ∷ []) read)) [
      | inr t ↦ rw t unchanged
      | inl t ↦ elim (Bool-cases (read.net_payout_cents == 0)) [
        | inl z ↦ rw (t, z) (mark_sent-IsKept b stamped now read.id no_transfer_zero_net db here)
        | inr z ↦ elim (Bool-cases (is_none read.payout_attempted_at)) [
          | inr a ↦ rw (t, z, a) (call_provider-IsKept provider now read db b stamped here)
          | inl a ↦ elim (Bool-cases (matched batch_id_of read.id can_stamp db.batches)) [
            | inr m ↦ rw (t, z, a, m) unchanged
            | inl m ↦
                let batches = write batch_id_of read.id can_stamp (stamp_row now) db.batches in
                rw (t, z, a, m)
                  (IsKept-trans b batches _ stamped
                    (write-IsKept can_stamp (stamp_row now) read.id db.batches b (λ x. refl)
                      (can_stamp-Keeps now) stamped here)
                    (λ c s found.
                      call_provider-IsKept provider now read (record db { batches = batches }) c s
                        found))
          ]
        ]
      ]
    ]
