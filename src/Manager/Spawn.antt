-- ===== src/Manager/Spawn.antt =====
-- process_manager.c: the start of a child process: the name of its socket, its environment, and its row
-- in the tables.
use qgis_scheduler.Prelude.{
  ℕ, zero, suc, ◌+◌, ◌-◌, ◌%◌, ◌^◌, Bool, false, not, Option, none, some, List, [], ◌∷◌, ◌==◌,
  if◌then◌else◌, String, str_eq,
}
use qgis_scheduler.Outcome.{Outcome, ok, fault, exit_failure, out_of_fuel, ◌>>=◌}
use qgis_scheduler.Config.{Dictionary, Pointer, null, invalid_string, text}
use qgis_scheduler.Config.Values.{config_get_env_key, config_get_env_value, config_get_process}
use qgis_scheduler.Database.{Store}
use qgis_scheduler.Database.Processes.{add_process}

-- How bind() returns.
pub data Bound : Type 0 where
  bound in_use bind_failed : Bound

abbrev pub uint_mod : ℕ
uint_mod = 2 ^ 32

-- The number of the socket's name, with socket_id behind it.
pub record Numbered : Type 0 where
  pub socket_suffix : ℕ
  pub socket_id : ℕ

-- The loop that looks for a free name. No other thread takes a number in between.
unfoldable pub bind_loop : (ℕ → Bound) → ℕ → ℕ → ℕ → Outcome Numbered
bind_loop bind zero socket_suffix_start socket_id = fault out_of_fuel
bind_loop bind (suc fuel) socket_suffix_start socket_id =
    let next = (socket_id + 1) % uint_mod in
    let again = bind_loop bind fuel socket_suffix_start next in
    if socket_id == socket_suffix_start then fault exit_failure else elim (bind socket_id) [
      | bound ↦ ok (record { socket_suffix = socket_id; socket_id = next })
      | in_use ↦ again
      | bind_failed ↦ fault exit_failure
    ]

unfoldable pub bind_socket : (ℕ → Bound) → ℕ → Outcome Numbered
bind_socket bind socket_id =
    bind_loop bind uint_mod ((socket_id + uint_mod - 1) % uint_mod) socket_id

abbrev pub maxenv : ℕ
maxenv = 128

-- The loop that gathers the environment of the child, with this many rounds left, from pair `i` on.
unfoldable pub env_pairs : (key value : ℕ → Pointer) → ℕ → ℕ → List (String × String)
env_pairs key value zero i = []
env_pairs key value (suc left) i = elim (key i) [
  | null ↦ []
  | invalid_string ↦ []
  | text k ↦ elim (value i) [
    | null ↦ []
    | invalid_string ↦ []
    | text v ↦ (k, v) ∷ env_pairs key value left (i + 1)
  ]
]

-- What the calls return that start a child: socket(), bind(), listen(), and fork() in the parent.
pub record SpawnCalls : Type 0 where
  pub socket : Option ℕ
  pub bind : ℕ → Bound
  pub listens : Bool
  pub fork : Option ℕ

-- The tables, the counter of names, the environment that the child adds, and the pid; a pid of 0 is a
-- child that was not started.
pub record Spawned : Type 0 where
  pub store : Store
  pub socket_id : ℕ
  pub environment : List (String × String)
  pub pid : ℕ

abbrev pub is_command : Pointer → Bool
is_command (text t) = not (str_eq t "")
is_command _ = false

-- The part behind listen(), in the parent.
unfoldable pub fork_child :
    (decimal : ℕ → String)
    → Dictionary
    → Store
    → (socket_id childsocket : ℕ) → String
    → Option ℕ
    → Outcome Spawned
unfolding env_pairs
fork_child decimal d s socket_id childsocket project_name none = fault exit_failure
fork_child decimal d s socket_id childsocket project_name (some pid) = do
  s' ← add_process s project_name pid childsocket
  ok (record {
    store = s';
    socket_id = socket_id;
    environment =
        env_pairs (config_get_env_key decimal d (some project_name))
          (config_get_env_value decimal d (some project_name)) maxenv 0;
    pid = pid;
  })

-- The part behind socket().
unfoldable pub name_child :
    (decimal : ℕ → String)
    → Dictionary
    → Store
    → ℕ
    → String
    → SpawnCalls
    → Option ℕ
    → Outcome Spawned
unfolding fork_child
name_child decimal d s socket_id project_name calls none = fault exit_failure
name_child decimal d s socket_id project_name calls (some childsocket) = do
  n ← bind_socket calls.bind socket_id
  if calls.listens
      then fork_child decimal d s n.socket_id childsocket project_name calls.fork
      else fault exit_failure

-- process_manager_thread_function_start_new_child(), in the parent
unfoldable pub start_new_child :
    (decimal : ℕ → String)
    → Dictionary
    → Store
    → (socket_id : ℕ) → String
    → SpawnCalls
    → Outcome Spawned
unfolding name_child
start_new_child decimal d s socket_id project_name calls =
    if is_command (config_get_process d (some project_name))
    then name_child decimal d s socket_id project_name calls calls.socket
    else ok (record { store = s; socket_id = socket_id; environment = []; pid = 0 })
