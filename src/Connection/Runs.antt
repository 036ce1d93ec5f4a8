-- ===== src/Connection/Runs.antt =====
-- connection_manager.c: the attempts at a request, from the first one to the end of the loop.
use qgis_scheduler.Prelude.{ℕ, ◌≡◌, true, false, not, ◌||◌, All}
use qgis_scheduler.Outcome.{Outcome, ok}
use qgis_scheduler.Database.{Store}
use qgis_scheduler.Database.Claim.{wake_store}
use qgis_scheduler.Database.Invariant.{WellFormed}
use qgis_scheduler.Fcgi.Protocol.{Protocol}
use qgis_scheduler.Connection.Attempt.{Contact, Attempted, Setting, Surroundings}
use qgis_scheduler.Outcome.{Returns}
use qgis_scheduler.Connection.Returns.{is_failed}

-- An attempt that returns, and leaves the tables well-formed.
abbrev ReturnsWell : Outcome Attempted → Type 0
ReturnsWell o = (a : Attempted) × (o ≡ ok a) × WellFormed a.store

-- No poll() of the loop between the sockets fails.
abbrev Polls : Contact → Type 0
Polls contact = All (λ p. is_failed p ≡ false) contact.polls

-- The shutdown thread is asked to end only with the program, other threads keep the tables
-- well-formed, and no poll() fails.
pub record Proceeds (c : Setting) (around : ℕ → Surroundings) : Type 0 where
  pub allowed : (c.program_shutdown || not c.do_shutdown_thread) ≡ true
  pub before : (left : ℕ) (s : Store) → WellFormed s → WellFormed ((around left).meanwhile s)
  pub later : (left : ℕ) → WellFormed (wake_store (around left).wake)
  pub polls : (left : ℕ) → Polls (around left).contact
