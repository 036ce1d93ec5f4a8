-- ===== src/Database/Moves.antt =====
-- database.c: how the processes of a project go from list to list, and the earliest signal timer.
use qgis_scheduler.Prelude.{
  suc, ◌+◌, ◌≡◌, refl, ap, Bool, Bool-cases, true, false, not, ◌&&◌, ◌⊎◌, inl, inr, List, [], ◌∷◌,
  arith, ◌==◌, if◌then◌else◌, String, str_eq, select, All,
}
use qgis_scheduler.Timer.{Timespec, timer_isgreaterthan}
use qgis_scheduler.Database.{ProcessList, list_code, Process, Store, update, count}
use qgis_scheduler.Database.Processes.{
  in_list, with_list, move_all, no_time, is_set, earliest, earliest_of,
  shutdown_get_min_signaltimer,
}

abbrev pub of_project : String → ProcessList → Process → Bool
of_project projname list r = str_eq r.projectname projname && in_list list r

abbrev pub of_others : String → Process → Bool
of_others projname r = not (str_eq r.projectname projname)

moved : String → ProcessList → ProcessList → List Process → List Process
moved projname from to rows = update (of_project projname from) (with_list to) rows

moved-from :
    (projname : String) (from to : ProcessList) (rows : List Process)
    → (list_code from == list_code to) ≡ false
    → count (of_project projname from) (moved projname from to rows) ≡ 0
unfolding moved
moved-from projname from to [] ne = refl
moved-from projname from to (r ∷ rs) ne =
    let rest = moved-from projname from to rs ne in
    elim (Bool-cases (of_project projname from r)) [
      | inl e ↦ ground (arith, rest, ne, e)
      | inr e ↦ rw e (rw e rest)
    ]

-- A row that is moved is not in the second list before, and is there afterwards.
arrives :
    (projname : String) (from to : ProcessList) (r : Process)
    → (list_code from == list_code to) ≡ false
    → of_project projname from r ≡ true
    → (of_project projname to (with_list to r) ≡ true) × (of_project projname to r ≡ false)
arrives projname from to r ne e = (ground (arith, e), ground (arith, ne, e))

moved-to :
    (projname : String) (from to : ProcessList) (rows : List Process)
    → (list_code from == list_code to) ≡ false
    → count (of_project projname to) (moved projname from to rows)
      ≡ count (of_project projname to) rows + count (of_project projname from) rows
unfolding moved
moved-to projname from to [] ne = refl
moved-to projname from to (r ∷ rs) ne =
    let rest = moved-to projname from to rs ne in
    elim (Bool-cases (of_project projname from r)) [
      | inl e ↦
          let (arrived, away) = arrives projname from to r ne e in
          rw (e, arrived, away) (omega (arith, rest))
      | inr e ↦ elim (Bool-cases (of_project projname to r)) [
        | inl f ↦ simp (e, f) (omega (arith, rest))
        | inr f ↦ simp (e, f) rest
      ]
    ]

moved-others :
    (projname : String) (from to : ProcessList) (rows : List Process)
    → select (of_others projname) (moved projname from to rows) ≡ select (of_others projname) rows
unfolding moved
moved-others projname from to [] = refl
moved-others projname from to (r ∷ rs) =
    let rest = moved-others projname from to rs in
    elim (Bool-cases (str_eq r.projectname projname)) [
      | inl e ↦ ground (arith, rest, e)
      | inr e ↦ simp (e, rest)
    ]

-- A row that is moved is in no third list.
passes :
    (projname : String) (from to third : ProcessList) (r : Process)
    → (list_code from == list_code third) ≡ false
    → (list_code to == list_code third) ≡ false
    → of_project projname from r ≡ true
    → (of_project projname third r ≡ false) × (of_project projname third (with_list to r) ≡ false)
passes projname from to third r ne ne' e = (ground (arith, ne, e), ground (arith, ne', e))

moved-third :
    (projname : String) (from to third : ProcessList) (rows : List Process)
    → (list_code from == list_code third) ≡ false
    → (list_code to == list_code third) ≡ false
    → count (of_project projname third) (moved projname from to rows)
      ≡ count (of_project projname third) rows
unfolding moved
moved-third projname from to third [] ne ne' = refl
moved-third projname from to third (r ∷ rs) ne ne' =
    let rest = moved-third projname from to third rs ne ne' in
    elim (Bool-cases (of_project projname from r)) [
      | inl e ↦
          let (before, after) = passes projname from to third r ne ne' e in
          rw (e, before, after) rest
      | inr e ↦ elim (Bool-cases (of_project projname third r)) [
        | inl f ↦ simp (e, f) (ap suc rest)
        | inr f ↦ simp (e, f) rest
      ]
    ]

pub move_all-third :
    (s : Store) (projname : String) (from to third : ProcessList)
    → (list_code from == list_code third) ≡ false
    → (list_code to == list_code third) ≡ false
    → count (of_project projname third) (move_all s projname from to).processes
      ≡ count (of_project projname third) s.processes
unfolding move_all moved
move_all-third s projname from to third ne ne' =
    moved-third projname from to third s.processes ne ne'

-- Moving the processes of a project from one list to another leaves none of them in the first list,
-- the second has as many more as the first had, and the rows of the other projects stay as they are.
pub move_all-count :
    (s : Store) (projname : String) (from to : ProcessList)
    → (list_code from == list_code to) ≡ false
    → (count (of_project projname from) (move_all s projname from to).processes ≡ 0)
      × (count (of_project projname to) (move_all s projname from to).processes
          ≡ count (of_project projname to) s.processes
            + count (of_project projname from) s.processes)
      × (select (of_others projname) (move_all s projname from to).processes
          ≡ select (of_others projname) s.processes)
unfolding move_all moved
move_all-count s projname from to ne = (
  moved-from projname from to s.processes ne,
  moved-to projname from to s.processes ne,
  moved-others projname from to s.processes,
)

abbrev pub NotLater : Timespec → Timespec → Type 0
NotLater t u = timer_isgreaterthan t u ≡ false

NotLater-trans : (t u v : Timespec) → NotLater t u → NotLater u v → NotLater t v
unfolding timer_isgreaterthan
NotLater-trans t u v h k = ground (arith, h, k)

NotLater-refl : (t : Timespec) → NotLater t t
unfolding timer_isgreaterthan
NotLater-refl t = ground arith

later_swap : (t u : Timespec) → timer_isgreaterthan t u ≡ true → NotLater u t
unfolding timer_isgreaterthan
later_swap t u h = ground (arith, h)

abbrev sooner : Timespec → Timespec → Timespec
sooner t u = if timer_isgreaterthan t u then u else t

sooner-NotLater : (t u : Timespec) → NotLater (sooner t u) t × NotLater (sooner t u) u
sooner-NotLater t u = elim (Bool-cases (timer_isgreaterthan t u)) [
  | inl e ↦ rw e (later_swap t u e, NotLater-refl u)
  | inr e ↦ rw e (NotLater-refl t, e)
]

-- No row of the list is earlier than the result, which is not later than the start.
earliest-NotLater :
    (t : Timespec) (rows : List Process)
    → NotLater (earliest t rows) t × All (λ r. NotLater (earliest t rows) r.signaltime) rows
unfolding earliest
earliest-NotLater t [] = (NotLater-refl t, tt)
earliest-NotLater t (r ∷ rs) =
    let next = sooner t r.signaltime in
    let (first, rest) = earliest-NotLater next rs in
    let (before, here) = sooner-NotLater t r.signaltime in
    (NotLater-trans _ next t first before, (NotLater-trans _ next r.signaltime first here, rest))

rows_cases :
    (rows : List Process) → (rows ≡ []) ⊎ All (λ r. NotLater (earliest_of rows) r.signaltime) rows
rows_cases [] = inl refl
rows_cases (r ∷ rs) = inr (earliest-NotLater r.signaltime rs)

-- The timer that the shutdown thread waits for is not later than the signal timer of any process whose
-- seconds and nanoseconds are both set, and it is empty if there is no such process.
pub min_signaltimer-NotLater :
    (s : Store)
    → ((select is_set s.processes ≡ []) × (shutdown_get_min_signaltimer s ≡ no_time))
      ⊎ All
          (λ r. NotLater (shutdown_get_min_signaltimer s) r.signaltime)
          (select is_set s.processes)
unfolding shutdown_get_min_signaltimer
min_signaltimer-NotLater s = elim (rows_cases (select is_set s.processes)) [
  | inl e ↦ inl (e, ap earliest_of e)
  | inr found ↦ inr found
]
