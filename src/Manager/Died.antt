-- ===== src/Manager/Died.antt =====
-- process_manager_process_died(): what becomes of the processes that no longer exist.
use qgis_scheduler.Prelude.{
  ℕ, ◌≡◌, refl, Bool, true, false, not, ◌&&◌, ◌||◌, ◌⊎◌, inl, inr, List, [], ◌∷◌, map,
  if◌then◌else◌, String, select,
}
use qgis_scheduler.Database.{list_shutdown, Process}
use qgis_scheduler.Database.Processes.{in_list}
use qgis_scheduler.Shutdown.{Killed, delivered, no_such_process, not_permitted}

abbrev pub is_gone : Killed → Bool
is_gone no_such_process = true
is_gone _ = false

-- The process of the row does not exist.
abbrev pub is_dead : (ℕ → Killed) → Process → Bool
is_dead alive r = is_gone (alive r.pid)

-- It does not exist, and was not about to end.
abbrev pub is_lost : (ℕ → Killed) → Process → Bool
is_lost alive r = is_dead alive r && not (in_list list_shutdown r)

-- What is started for a process that does not exist: nothing while the program shuts down.
abbrev start_for : (down : Bool) → Process → List String
start_for down r = if down || in_list list_shutdown r then [] else r.projectname ∷ []

pub Killed-cases : (k : Killed) → (k ≡ delivered) ⊎ ((k ≡ no_such_process) ⊎ (k ≡ not_permitted))
Killed-cases delivered = inl refl
Killed-cases no_such_process = inr (inl refl)
Killed-cases not_permitted = inr (inr refl)

-- The projects of the processes that are lost, in order, if the program does not shut down.
abbrev pub lost_projects : (down : Bool) → (ℕ → Killed) → List Process → List String
lost_projects down alive rows =
    if down then [] else map (λ r. r.projectname) (select (is_lost alive) rows)
