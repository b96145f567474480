-- ===== src/Status.antt =====
-- The status machines of backend/src/modules: each is a table from a status to the statuses that it
-- may move to, and two functions read every table in the same way. The children hold the tables.
pub mod Reservation
pub mod Offer
pub mod Settlement
pub mod Complaint
pub mod Merchant
use kurtar.Prelude.{
  ℕ, ◌≡◌, refl, ◌↔◌, ◌⊎◌, inl, inr, Bool, true, false, ◌||◌, List, [], ◌∷◌, arith, ◌==◌, ==_iff,
  if◌then◌else◌, Bool-cases,
}

-- A Prisma enum with its transition table. `keys` are the table's keys in the order of the source.
pub record Machine (S : Type 0) : Type 0 where
  pub code : S → ℕ
  pub keys : List S
  pub next : S → List S

module _ {S : Type 0} (m : Machine S) where
  abbrev pub same : S → S → Bool
  same a b = m.code a == m.code b

  -- `Array.prototype.includes`.
  abbrev pub includes : List S → S → Bool
  includes [] s = false
  includes (x ∷ xs) s = same x s || includes xs s

  -- `isReservationTransitionAllowed` and its four siblings.
  abbrev pub is_transition_allowed : S → S → Bool
  is_transition_allowed from to = includes (m.next from) to

  abbrev pub from_statuses : List S → S → List S
  from_statuses [] to = []
  from_statuses (from ∷ keys) to =
      if is_transition_allowed from to then from ∷ from_statuses keys to else from_statuses keys to

  -- `allowedFromStatusesFor`.
  abbrev pub allowed_from_statuses_for : S → List S
  allowed_from_statuses_for to = from_statuses m.keys to
