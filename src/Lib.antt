-- ===== src/Lib.antt =====
-- Kurtar: the money and stock core of the backend of a marketplace for surplus food bags.
--
-- A merchant publishes a daily offer of bags; a consumer reserves some and pays through an external
-- provider; the provider's webhook, or a sweeper, settles the payment; the reservation is redeemed at
-- the counter, cancelled, expired or marked a no-show; and a periodic settlement batch pays
-- the merchant. The parts modelled here meet in the database, as the services do: the reservation
-- service claims and releases an offer's stock, the payment service confirms or expires the
-- reservation of a payment, the sweepers call both, and the fan-out of a cancelled offer moves all of
-- its reservations.
--
-- Which file models what (paths from the repository's root, below backend/src/modules):
--   Settlement/Rate, Batch, Clawback   settlements/settlement-math.ts: roundKurus, applyRateCents,
--     computeLine, computeSettlement; remainingClawbackDemandCents, allocateClawback
--   Status, Status/*                   the five *-transitions.ts tables and their two functions
--   Market/State, Rows                 the Prisma models that the services use, and guarded updates
--   Market/Stock                       reservations/offer-stock.service.ts: claim, release
--   Market/Reservations/Create         reservations/reservations.service.ts: create,
--     createReservationWithRetry (create_tx is its transaction), compensateFailedIntent
--   Market/Reservations/Cancel, Redeem   the same file: cancel, redeem
--   Market/Fanout, Refunds             the same file: cancelAllForOffer; refundForCancellation,
--     refundMany, refundRedeemed
--   Market/Settle                      payments/payment-settle.service.ts: settle, settleSuccess,
--     expireAndRelease
--   Market/Sweeper                     reservations/no-show-sweeper.service.ts and
--     payments/payments-sweeper.service.ts
--   Market/History                     any sequence of the transactions above
--   BusinessDays                       settlements/business-days.ts: isBusinessDay, addBusinessDays
--   Ledger/State                       the Prisma models of the settlements
--   Ledger/Membership                  memberships/membership-offset.service.ts
--   Ledger/Clawback, Carried, Pass, Recompute, Open, Nightly
--     settlements/settlement-batch-builder.service.ts: the locked lines and their allocations, the
--     carried-demand claims, recomputeBatch, createOrExtendBatch, runNightlyCycle; and
--     settlements/pricing.service.ts for the bag fee
--   Ledger/Admin                       settlements/settlements.service.ts: adminGet, adminApprove,
--     adminHold, adminMarkSettled (adminRetry stands in Ledger/Payout)
--   Ledger/Payout                      settlements/settlement-payout.service.ts: executeOne, markSent
--   Ledger/History                     any sequence of those transactions
-- Market/Conservation, Coherence, Moves, Ledger/Sums, Ledger/Reconciled and the children of each module
-- hold proofs. Prelude has the
-- shared names, Examples the concrete runs.
--
-- How it is modelled. Amounts are whole kuruş. `settlement-math.ts` checks its numbers with
-- `Number.isInteger`, so a number is an integer or not; divisions are taken as exact, which doubles
-- are for the amounts in question. The database is a record of tables; a table is a list with its
-- newest row first. Identifiers, codes and provider references are numbers; times are milliseconds.
-- A payment is stored in the row of its reservation: both are created in one transaction and
-- `payments.reservationId` is unique; so an update that names a payment, by its identifier or by its
-- merchantOid, names that row. `updateMany` with a guard is `write`, its count `matched`.
--
-- A transaction is one step: PostgreSQL runs a guarded update on the live row under its lock, and a
-- transaction decides on the counts of such updates. The fan-out of a cancelled offer is the exception:
-- it reads its candidates first, and chooses each one's branch by the status that it read. So each
-- candidate's turn is a step of its own, on the row as it was read, and other transactions run before it
-- (the argument `others` of cancel_all_for_offer). What a method does outside a transaction
-- (reads before it, provider calls after it) is a separate function, so that other steps may come
-- between: in Market/History a step that uses an earlier read needs of it only the columns that never
-- change. A method that asks the provider for refunds returns the calls that it made, in order. The
-- whole methods (create, cancel, redeem, refundRedeemed, the two sweepers) are run with nothing in
-- between. Random draws, the clock, the provider's answers and failing bookkeeping writes are
-- arguments. The retry loop is recursion on the attempts that are left, which is the source's bound
-- of five, and the loop of addBusinessDays is recursion on 7 * (n + the number of holidays) rounds, as
-- a week has five working days and a holiday takes one at most; add_business_days is that loop
-- on the numbers of days, and add_business_days_from the whole function, with its check of n and its
-- instants; every other loop goes through a list.
--
-- The settlement ledger is a second record of tables, over the same conventions. A recompute reads a
-- merchant, a reservation's quantity, its refunds and the prices from tables that it does not write:
-- these come as an argument, a new one at each step of Ledger/History. A payout is the read of a row and
-- what follows it, so that other transactions may come in between. A calendar day is its number, and the
-- identifier of a new batch is an argument, fresh where a theorem says so.
--
-- Not modelled: logging, HTTP errors' texts, authentication, the read-only lists, the scan that
-- selects stale payments, and the other modules of the backend (the outbox worker, complaints, the
-- renewal of memberships and the rest), whose effect on the tables here is the three administrative steps
-- of Market/History, and in Ledger/History a change of the tables that the recompute does not reconcile.
pub mod Prelude
pub mod Settlement
pub mod Status
pub mod Market
pub mod BusinessDays
pub mod Ledger
pub mod Examples
