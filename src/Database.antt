-- ===== src/Database.antt =====
-- database.c: the two tables, their rows, and what the SQL statements do with a table. A statement
-- succeeds, except the insertions that the UNIQUE columns refuse.
pub mod Processes
pub mod Projects
pub mod Rows
pub mod Claim
pub mod Invariant
pub mod Moves
use qgis_scheduler.Prelude.{
  ℕ, ◌≡◌, refl, Bool, true, false, not, Option, none, some, List, [], ◌∷◌, ◌==◌, if◌then◌else◌,
  String, ℤ, length, select,
}
use qgis_scheduler.Timer.{Timespec}

-- enum db_process_list_e
pub data ProcessList : Type 0 where
  list_init list_active list_shutdown : ProcessList

-- enum db_process_state_e
pub data ProcessState : Type 0 where
  proc_start proc_init proc_idle proc_open_idle proc_busy proc_term proc_kill proc_exit :
      ProcessState

-- The integers that the tables hold for the members of the two enumerations.
abbrev pub list_code : ProcessList → ℕ
list_code list_init = 0
list_code list_active = 1
list_code list_shutdown = 2

abbrev pub state_code : ProcessState → ℕ
state_code proc_start = 0
state_code proc_init = 1
state_code proc_idle = 2
state_code proc_open_idle = 3
state_code proc_busy = 4
state_code proc_term = 5
state_code proc_kill = 6
state_code proc_exit = 7

-- A row of the table processes. The columns client_socket_fd and starttime are never written.
pub record Process : Type 0 where
  pub projectname : String
  pub list : ProcessList
  pub state : ProcessState
  pub threadid : ℕ
  pub pid : ℕ
  pub process_socket_fd : ℕ
  pub signaltime : Timespec

-- A row of the table projects.
pub record Project : Type 0 where
  pub name : String
  pub configpath : String
  pub configbasename : String
  pub watchd : ℤ
  pub nr_crashs : ℕ

pub data Signal : Type 0 where
  sigterm sigkill : Signal

pub record Sent : Type 0 where
  pub target : ℕ
  pub signal : Signal

-- The tables, the flag that qgis_shutdown_notify_changes() sets, the descriptors that were closed and
-- the signals that were sent, each with the last one first.
pub record Store : Type 0 where
  pub projects : List Project
  pub processes : List Process
  pub has_list_change : Bool
  pub closed : List ℕ
  pub signals : List Sent

module _ {ℓ} {A : Type ℓ} where
  -- `UPDATE ... SET f WHERE p`
  abbrev pub update : (A → Bool) → (A → A) → List A → List A
  update p f [] = []
  update p f (x ∷ xs) = (if p x then f x else x) ∷ update p f xs

  -- `DELETE ... WHERE p`
  abbrev pub delete : (A → Bool) → List A → List A
  delete p xs = select (λ x. not (p x)) xs

  -- A callback that overwrites its result leaves the one of the last row.
  abbrev pub last_of : List A → Option A
  last_of [] = none
  last_of (x ∷ []) = some x
  last_of (x ∷ y ∷ ys) = last_of (y ∷ ys)

  -- `SELECT count(...) WHERE p`
  abbrev pub count : (A → Bool) → List A → ℕ
  count p xs = length (select p xs)

  -- The test for a UNIQUE column: some row passes `p`.
  abbrev pub any : (A → Bool) → List A → Bool
  any p [] = false
  any p (x ∷ xs) = if p x then true else any p xs

-- `LIMIT 1` without an order: SQLite documents that one of the rows is given, if there is one.
pub record Limit : Type 0 where
  pub pick : List ℕ → Option ℕ
  pub pick-none : (xs : List ℕ) → pick xs ≡ none → xs ≡ []
  pub pick-some : (xs : List ℕ) (x : ℕ) → pick xs ≡ some x → any (λ y. y == x) xs ≡ true
