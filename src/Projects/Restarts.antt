-- ===== src/Projects/Restarts.antt =====
-- project_manager_restart_processes(): how many processes it starts.
use qgis_scheduler.Prelude.{
  ◌≡◌, refl, sym, ap, true, some, List, [], ◌∷◌, map, arith, String, All, Bool-cases, inl, inr, ◌⊎◌,
  ltb_ℤ, ◌≤ℤ◌, pos,
}
use qgis_scheduler.Config.{Dictionary}
use qgis_scheduler.Config.Values.{config_get_min_idle_processes}
use qgis_scheduler.Database.{Store, count, proc_busy}
use qgis_scheduler.Database.Processes.{in_state, get_num_active_process, get_num_process_by_status}
use qgis_scheduler.Projects.Missing.{count_of_rows}
use qgis_scheduler.Projects.Shut.{rows_of}
use qgis_scheduler.Projects.Start.{Start, restart_processes}

-- A restart of a project's processes: with the exchange of the old ones, and with the larger of the number
-- of idle processes in its configuration and the number of its processes that are busy.
pub record IsRestart (d : Dictionary) (s : Store) (start : Start) : Type 0 where
  pub exchanges : start.do_exchange_processes ≡ true
  pub enough_idle : config_get_min_idle_processes d (some start.projname) ≤ℤ start.num
  pub enough_busy : pos (count (in_state proc_busy) (rows_of start.projname s)) ≤ℤ start.num
  pub no_more :
      (start.num ≡ config_get_min_idle_processes d (some start.projname))
      ⊎ (start.num ≡ pos (count (in_state proc_busy) (rows_of start.projname s)))

restart_processes-IsRestart :
    (d : Dictionary) (s : Store) (n : String) → IsRestart d s (restart_processes d s n)
unfolding restart_processes get_num_active_process get_num_process_by_status
restart_processes-IsRestart d s n =
    let least = config_get_min_idle_processes d (some n) in
    let busy = get_num_active_process s n in
    let counted : busy ≡ count (in_state proc_busy) (rows_of n s) =
      count_of_rows n (in_state proc_busy) s.processes in
    elim (Bool-cases (ltb_ℤ (pos busy) least)) [
      | inl e ↦ record {
        exchanges = refl;
        enough_idle = rw (restart_processes, e) (ground arith);
        enough_busy = rw (restart_processes, e, sym counted) (ground (arith, e));
        no_more = inl (rw (restart_processes, e) refl);
      }
      | inr e ↦ record {
        exchanges = refl;
        enough_idle = rw (restart_processes, e) (ground (arith, e));
        enough_busy = rw (restart_processes, e, sym counted) (ground arith);
        no_more = inr (rw (restart_processes, e) (ap pos counted));
      }
    ]

-- The starts are restarts of these projects, in order.
pub record Restarts (d : Dictionary) (s : Store) (ps : List String) (starts : List Start)
    : Type 0 where
  pub projects : map (λ (x : Start). x.projname) starts ≡ ps
  pub each : All (IsRestart d s) starts

pub map-Restarts :
    (d : Dictionary) (s : Store) (ps : List String)
    → Restarts d s ps (map (restart_processes d s) ps)
unfolding restart_processes
map-Restarts d s [] = record { projects = refl; each = tt }
map-Restarts d s (p ∷ ps) =
    let rest = map-Restarts d s ps in
    record {
      projects = ap (◌∷◌ p) rest.projects;
      each = (restart_processes-IsRestart d s p, rest.each);
    }
