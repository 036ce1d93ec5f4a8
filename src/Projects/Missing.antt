-- ===== src/Projects/Missing.antt =====
-- project_manager.c: which processes a new configuration finds missing, in a project that it keeps.
use qgis_scheduler.Prelude.{
  ℕ, zero, suc, ◌≡◌, refl, ap, ◌∙◌, Bool, true, false, not, ◌&&◌, ◌||◌, inl, inr, Bool-cases, List,
  [], ◌∷◌, ◌++◌, arith, select, if◌then◌else◌, String, str_eq, ℤ, pos, negsuc, ◌-ℤ◌, -ℤ_parts, some,
  ltb_ℤ,
}
use qgis_scheduler.Config.{Dictionary}
use qgis_scheduler.Config.Values.{config_get_min_idle_processes}
use qgis_scheduler.Database.{Process, Store, count, proc_start, proc_init, proc_idle}
use qgis_scheduler.Database.Processes.{in_state, get_num_start_init_idle_process}
use qgis_scheduler.Projects.Shut.{rows_of}
use qgis_scheduler.Projects.Start.{Start, missing_start, missing_starts}

-- The processes of a project that start, initialise or wait for a request.
abbrev pub waits : Process → Bool
waits r = in_state proc_start r || in_state proc_init r || in_state proc_idle r

abbrev pub number_waiting : String → Store → ℕ
number_waiting n s = count waits (rows_of n s)

-- One start for a positive number of processes, and none for another.
abbrev pub start_of_number : String → ℤ → List Start
start_of_number n (pos zero) = []
start_of_number n (pos (suc k)) =
    record { num = pos (suc k); projname = n; do_exchange_processes = false } ∷ []
start_of_number n (negsuc k) = []

-- What a project lacks: the number that the configuration asks for less the number that waits.
abbrev pub shortfall : Dictionary → Store → String → List Start
shortfall d s n =
    start_of_number n (config_get_min_idle_processes d (some n) -ℤ pos (number_waiting n s))

abbrev pub shortfalls : Dictionary → Store → List String → List Start
shortfalls d s [] = []
shortfalls d s (n ∷ ns) = shortfall d s n ++ shortfalls d s ns

-- A count of one project's rows looks at no other row.
pub count_of_rows :
    (projname : String) (p : Process → Bool) (rows : List Process)
    → count (λ r. str_eq r.projectname projname && p r) rows
      ≡ count p (select (λ r. str_eq r.projectname projname) rows)
count_of_rows projname p [] = refl
count_of_rows projname p (r ∷ rows) = ground (arith, count_of_rows projname p rows)

by_sign :
    (n : String) (z : ℤ) (b : Bool)
    → b ≡ ltb_ℤ (pos 0) z
    → (if b then record { num = z; projname = n; do_exchange_processes = false } ∷ [] else [])
      ≡ start_of_number n z
by_sign n (pos zero) b e = rw e refl
by_sign n (pos (suc k)) b e = let f : b ≡ true = ground (arith, e) in rw f refl
by_sign n (negsuc k) b e = let f : b ≡ false = ground (arith, e) in rw f refl

lacks : (want have : ℤ) → ltb_ℤ have want ≡ ltb_ℤ (pos 0) (want -ℤ have)
lacks want have = ground (arith, -ℤ_parts want have)

missing_start-shortfall :
    (d : Dictionary) (s : Store) (n : String) → missing_start d s n ≡ shortfall d s n
unfolding missing_start get_num_start_init_idle_process
missing_start-shortfall d s n =
    let want = config_get_min_idle_processes d (some n) in
    let have = get_num_start_init_idle_process s n in
    by_sign n (want -ℤ pos have) (ltb_ℤ (pos have) want) (lacks want (pos have))
    ∙ ap (λ k. start_of_number n (want -ℤ pos k)) (count_of_rows n waits s.processes)

missing_starts-shortfalls :
    (d : Dictionary) (s : Store) (handled : String → Bool) (names : List String)
    → missing_starts d s handled names ≡ shortfalls d s (select (λ n. not (handled n)) names)
unfolding missing_starts
missing_starts-shortfalls d s handled [] = refl
missing_starts-shortfalls d s handled (n ∷ names) =
    let rest = missing_starts-shortfalls d s handled names in
    elim (Bool-cases (handled n)) [
      | inl e ↦ rw e rest
      | inr e ↦ rw (e, missing_start-shortfall d s n, rest) refl
    ]

-- The starts look at the rows of the projects that are not handled only.
pub missing_starts-rows :
    (d : Dictionary) (s s' : Store) (handled : String → Bool) (names : List String)
    → ((n : String) → handled n ≡ false → rows_of n s' ≡ rows_of n s)
    → missing_starts d s' handled names ≡ shortfalls d s (select (λ n. not (handled n)) names)
missing_starts-rows d s s' handled names same =
    missing_starts-shortfalls d s' handled names ∙ by_names names
  where
    by_names :
        (names : List String)
        → shortfalls d s' (select (λ n. not (handled n)) names)
          ≡ shortfalls d s (select (λ n. not (handled n)) names)
    by_names [] = refl
    by_names (n ∷ names) = elim (Bool-cases (handled n)) [
      | inl e ↦ rw e (by_names names)
      | inr e ↦ rw (e, same n e, by_names names) refl
    ]
