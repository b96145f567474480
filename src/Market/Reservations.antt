-- ===== src/Market/Reservations.antt =====
-- backend/src/modules/reservations/reservations.service.ts: `create`, `cancel` and `redeem`, in the
-- children. A method is cut where another may run in between: its reads, its transactions and its
-- provider calls are functions of their own, and the method is their sequence.
pub mod Create
pub mod Cancel
pub mod Redeem
use kurtar.Prelude.{Result, ok, err}
use kurtar.Market.State.{Db, Error}

-- `prisma.$transaction`: an exception rolls the database back.
abbrev pub transaction : {A : Type 0} → Result Error (A × Db) → Db → Result Error A × Db
transaction (ok (a, after)) before = (ok a, after)
transaction (err e) before = (err e, before)
