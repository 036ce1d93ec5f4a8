-- ===== src/Projects/Resets.antt =====
-- database.c: the startup failures of several projects set to 0, one after the other.
use qgis_scheduler.Prelude.{
  ◌≡◌, refl, ap, false, List, [], ◌∷◌, ◌++◌, arith, String, eq_iff, contains, contains-append,
}
use qgis_scheduler.Database.{Project, Store, update}
use qgis_scheduler.Database.Projects.{with_crashs, reset_startup_failures, is_named}

-- The tables with the startup failures of these projects set to 0.
abbrev pub with_reset : List String → Store → Store
with_reset ps s = record s {
  projects = update (λ r. contains r.name ps) (with_crashs (λ n. 0)) s.projects;
}

pub update-nil : (rows : List Project) → update (λ r. false) (with_crashs (λ n. 0)) rows ≡ rows
update-nil [] = refl
update-nil (r ∷ rows) = ap (◌∷◌ r) (update-nil rows)

update-append :
    (ps qs : List String) (rows : List Project)
    → update
        (λ r. contains r.name qs)
        (with_crashs (λ n. 0))
        (update (λ r. contains r.name ps) (with_crashs (λ n. 0)) rows)
      ≡ update (λ r. contains r.name (ps ++ qs)) (with_crashs (λ n. 0)) rows
update-append ps qs [] = refl
update-append ps qs (r ∷ rows) =
    ground (arith, update-append ps qs rows, contains-append r.name ps qs)

pub with_reset-append :
    (ps qs : List String) (s : Store) → with_reset qs (with_reset ps s) ≡ with_reset (ps ++ qs) s
with_reset-append ps qs s =
    ap (λ rows. record s { projects = rows }) (update-append ps qs s.projects)

update-one_name :
    (p : String) (rows : List Project)
    → update (is_named p) (with_crashs (λ n. 0)) rows
      ≡ update (λ r. contains r.name (p ∷ [])) (with_crashs (λ n. 0)) rows
update-one_name p [] = refl
update-one_name p (r ∷ rows) =
    ground (arith, update-one_name p rows, eq_iff r.name p, eq_iff p r.name)

pub reset_startup_failures_lem :
    (s : Store) (p : String) → reset_startup_failures s p ≡ with_reset (p ∷ []) s
unfolding reset_startup_failures
reset_startup_failures_lem s p =
    ap (λ rows. record s { projects = rows }) (update-one_name p s.projects)
