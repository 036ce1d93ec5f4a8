-- ===== src/Config/Values.antt =====
-- qgis_config.c: the values by their names, config_load(), and the clock that is chosen.
use qgis_scheduler.Prelude.{
  ℕ, ◌+◌, Bool, Option, none, some, List, [], ◌∷◌, length, get_elem?, ltb, if◌then◌else◌, String, ℤ,
  pos,
}
use qgis_scheduler.Outcome.{Outcome, ok, fault, exit_failure, ◌>>=◌, ◌>>◌, assert}
use qgis_scheduler.Config.{
  Dictionary, Pointer, null, text, Name, getint, global_config_string, global_config_int,
  project_config_string, project_only_config_string, project_numbered_config_string,
  project_config_int,
}
use qgis_scheduler.Config.Changes.{config_has_changed}

-- What the module keeps between two calls.
pub record Config : Type 0 where
  pub config_opts : Option Dictionary
  pub debuglevel : ℤ
  -- the last value that config_get_abort() has read
  pub abort_on_error : ℤ

-- The strings in the arrays that config_load() gives back, or NULL.
pub record Loaded : Type 0 where
  pub config : Config
  pub sectionnew : Option (List String)
  pub sectionchanged : Option (List String)
  pub sectiondelete : Option (List String)

-- The loop of config_convert_list_to_array(), at place `i` of an array for `n` strings.
unfoldable pub convert_loop : ℕ → ℕ → List String → Outcome (List String)
convert_loop n i [] = ok []
convert_loop n i (section ∷ list) = do
  assert (ltb i n)
  array ← convert_loop n (i + 1) list
  ok (section ∷ array)

unfoldable pub config_convert_list_to_array : List String → Outcome (List String)
unfolding convert_loop
config_convert_list_to_array list = convert_loop (length list) 0 list

-- config_get_abort() leaves its result in the state.
unfoldable pub config_get_abort : Config → Config
unfolding global_config_int
config_get_abort c = elim c.config_opts [
  | none ↦ c
  | some d ↦ record c { abort_on_error = global_config_int d ":abort_on_error" (pos 0) }
]

-- The second attempt to get the debug level, and the call of config_get_abort().
unfoldable pub settle_values : Config → Dictionary → Config
unfolding config_get_abort
settle_values c d =
    config_get_abort
      (record c { config_opts = some d; debuglevel = getint d ":debuglevel" (pos 0) })

unfoldable pub load_changes : Config → Dictionary → Dictionary → Outcome Loaded
unfolding config_convert_list_to_array
load_changes c old new = do
  let changes = config_has_changed old new
  sectionnew ← config_convert_list_to_array changes.sectionnew
  sectionchanged ← config_convert_list_to_array changes.sectionchanged
  sectiondelete ← config_convert_list_to_array changes.sectiondelete
  ok (record {
    config = settle_values c new;
    sectionnew = some sectionnew;
    sectionchanged = some sectionchanged;
    sectiondelete = some sectiondelete;
  })

-- config_load(); `newconfig` is what iniparser_load_with_include() returns.
unfoldable pub config_load : Config → Option Dictionary → Outcome Loaded
unfolding load_changes settle_values
config_load c newconfig = elim c.config_opts [
  | some old ↦ elim newconfig [
    | none ↦ ok (record {
      config = settle_values c old;
      sectionnew = none;
      sectionchanged = none;
      sectiondelete = none;
    })
    | some new ↦ load_changes c old new
  ]
  | none ↦ elim newconfig [
    | none ↦ fault exit_failure
    | some new ↦ ok (record {
      config = settle_values c new;
      sectionnew = some new.secnames;
      sectionchanged = none;
      sectiondelete = none;
    })
  ]
]

pub config_get_num_projects : Dictionary → ℕ
config_get_num_projects d = length d.secnames

-- A number that is out of range gives NULL.
pub config_get_name_project : Dictionary → ℕ → Option String
config_get_name_project d num = get_elem? d.secnames num

pub config_get_network_listen : Dictionary → Pointer
config_get_network_listen d = global_config_string d ":listen" (text "*")

pub config_get_network_port : Dictionary → Pointer
config_get_network_port d = global_config_string d ":port" (text "10177")

unfoldable pub config_get_chuser : Dictionary → Pointer
config_get_chuser d = global_config_string d ":chuser" null

unfoldable pub config_get_chroot : Dictionary → Pointer
config_get_chroot d = global_config_string d ":chroot" null

unfoldable pub config_get_pid_path : Dictionary → Pointer
config_get_pid_path d = global_config_string d ":pidfile" null

pub config_get_logfile : Dictionary → Pointer
config_get_logfile d = global_config_string d ":logfile" null

pub config_get_process : Dictionary → Name → Pointer
config_get_process d project = project_config_string d project ":process" null

pub config_get_process_args : Dictionary → Name → Pointer
config_get_process_args d project = project_config_string d project ":process_args" null

unfoldable pub config_get_min_idle_processes : Dictionary → Name → ℤ
config_get_min_idle_processes d project = project_config_int d project ":min_proc" (pos 1)

pub config_get_max_idle_processes : Dictionary → Name → ℤ
config_get_max_idle_processes d project = project_config_int d project ":max_proc" (pos 20)

pub config_get_read_timeout : Dictionary → Name → ℤ
config_get_read_timeout d project = project_config_int d project ":proc_read_timeout" (pos 270)

pub config_get_term_timeout : Dictionary → ℤ
config_get_term_timeout d = project_config_int d none ":proc_term_timeout" (pos 10)

unfoldable pub config_get_scan_parameter_key : Dictionary → Name → Pointer
config_get_scan_parameter_key d project = project_only_config_string d project ":scan_param" null

unfoldable pub config_get_scan_parameter_regex : Dictionary → Name → Pointer
config_get_scan_parameter_regex d project = project_only_config_string d project ":scan_regex" null

pub config_get_working_directory : Dictionary → Name → Pointer
config_get_working_directory d project = project_config_string d project ":cwd" (text "/")

unfoldable pub config_get_project_config_path : Dictionary → Name → Pointer
config_get_project_config_path d project = project_only_config_string d project ":config_file" null

module _ (decimal : ℕ → String) where
  unfoldable pub config_get_init_key : Dictionary → Name → ℕ → Pointer
  config_get_init_key d project num =
      project_numbered_config_string decimal d project ":initkey" null num

  unfoldable pub config_get_init_value : Dictionary → Name → ℕ → Pointer
  config_get_init_value d project num =
      project_numbered_config_string decimal d project ":initvalue" null num

  pub config_get_env_key : Dictionary → Name → ℕ → Pointer
  config_get_env_key d project num =
      project_numbered_config_string decimal d project ":envkey" null num

  pub config_get_env_value : Dictionary → Name → ℕ → Pointer
  config_get_env_value d project num =
      project_numbered_config_string decimal d project ":envvalue" null num

-- test_set_valid_clock_id() with the clocks that it tries; `getres` tells whether clock_getres()
-- succeeds, and the result is the clock set, if one is.
unfoldable pub valid_clock_id : (ℕ → Bool) → List ℕ → Option ℕ
valid_clock_id getres [] = none
valid_clock_id getres (clock ∷ clocks) =
    if getres clock then some clock else valid_clock_id getres clocks
