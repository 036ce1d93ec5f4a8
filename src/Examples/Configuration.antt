-- ===== src/Examples/Configuration.antt =====
-- The theorems on the configuration, on its changes, on the buffers and on the statistics, at concrete
-- values.
use qgis_scheduler.Prelude.{
  List, ℕ, ◌+◌, ◌*◌, ◌≤◌, ◌<◌, ◌≡◌, ◌↔◌, refl, Bool-cases, inl, inr, true, false, Option, none,
  some, [], ◌∷◌, arith, if◌then◌else◌, String, str_eq, contains, AllDifferent, pos,
}
use qgis_scheduler.Outcome.{ok}
use qgis_scheduler.Config.{Dictionary}
use qgis_scheduler.Config.Changes.{
  test_for_section_change, config_has_changed, IsSound, HasSameSection, Classifies,
  test_for_section_change_iff, config_has_changed-Classifies,
}
use qgis_scheduler.Config.Lookup.{Reports, config_load-Reports}
use qgis_scheduler.Config.Values.{Config, config_load}
use qgis_scheduler.Database.{Store}
use qgis_scheduler.Database.Projects.{
  new_project, get_names_project, get_projects_for_watchd_and_config,
}
use qgis_scheduler.Projects.Effects.{Works}
use qgis_scheduler.Projects.Reload.{Reloads, manage_project_changes-Reloads}
use qgis_scheduler.Projects.Start.{
  Files, Managed, regular_file, InotifyEvent, in_moved_to, Start, inotify_events,
  manage_project_changes,
}
use qgis_scheduler.Projects.Restarts.{Restarts}
use qgis_scheduler.Projects.Resets.{with_reset}
use qgis_scheduler.Projects.Watch.{inotify_events-restarted}
use qgis_scheduler.Buffers.{Array, arraycat, MemBuffer, membcat, TextBuffer, strnbcat}
use qgis_scheduler.Buffers.Doubles.{Appended, strnbcat-Appended}
use qgis_scheduler.Buffers.Grows.{
  IsArray, Appends, arraycat-Appends, IsBuffer, CatsTo, membcat-CatsTo,
}
use qgis_scheduler.Statistic.{average_time}
use qgis_scheduler.Statistic.Averages.{milliseconds_of, average_time-close}

-- A value for each of these keys, in sections with one key.
abbrev pub one_value : String → String → String → Option String
one_value key value k = if str_eq key k then some value else none

-- Two projects, "map" and "old".
abbrev pub old_config : Dictionary
old_config = record {
  secnames = "map" ∷ "old" ∷ [];
  has_entry = λ s. contains s ("map" ∷ "old" ∷ []);
  seckeys = λ s. if str_eq "map" s then "map:scan_param" ∷ [] else [];
  value = one_value "map:scan_param" "MAP";
  int_value = λ k. none;
}

-- The project "map" has another parameter, "old" is gone, "new" has come.
abbrev pub new_config : Dictionary
new_config = record {
  secnames = "new" ∷ "map" ∷ [];
  has_entry = λ s. contains s ("new" ∷ "map" ∷ []);
  seckeys = λ s. if str_eq "map" s then "map:scan_param" ∷ [] else [];
  value = one_value "map:scan_param" "LAYER";
  int_value = λ k. if str_eq ":min_proc" k then some (pos 3) else none;
}

keys-AllDifferent :
    (s : String) → AllDifferent (if str_eq "map" s then "map:scan_param" ∷ [] else [])
keys-AllDifferent s = elim (Bool-cases (str_eq "map" s)) [
  | inl e ↦ rw e (refl, tt)
  | inr e ↦ rw e tt
]

pub old_config-IsSound : IsSound old_config
old_config-IsSound = record {
  names = (refl, (refl, tt));
  sections = λ s e. refl;
  different_names = (refl, (refl, tt));
  different_keys = keys-AllDifferent;
}

pub new_config-IsSound : IsSound new_config
new_config-IsSound = record {
  names = (refl, (refl, tt));
  sections = λ s e. refl;
  different_names = (refl, (refl, tt));
  different_keys = keys-AllDifferent;
}

config_has_changed-Classifies_example :
    Classifies old_config new_config (config_has_changed old_config new_config)
config_has_changed-Classifies_example =
    config_has_changed-Classifies old_config new_config old_config-IsSound new_config-IsSound

test_for_section_change_iff_example :
    (test_for_section_change old_config new_config "map" ≡ false)
    ↔ HasSameSection old_config new_config "map"
test_for_section_change_iff_example =
    test_for_section_change_iff old_config new_config "map" old_config-IsSound new_config-IsSound

abbrev one_digit : ℕ → String
one_digit n = "1"

abbrev pub loaded : Config
loaded = record { config_opts = some old_config; debuglevel = pos 0; abort_on_error = pos 0 }

config_load-Reports_example :
    Reports (some old_config) (some new_config) (config_load loaded (some new_config))
config_load-Reports_example =
    config_load-Reports loaded (some new_config) old_config-IsSound new_config-IsSound

-- Every path is a regular file in one directory with the watch 1.
abbrev pub files : Files
files = record {
  stat = λ path. regular_file;
  dirname = λ path. "/etc";
  basename = λ path. path;
  add_watch = λ directory. some (pos 1);
  rm_watch = λ w. true;
}

pub files-Works : Works files
files-Works = record {
  stats = λ path. refl;
  adds = λ directory. (pos 1, refl);
  removes = λ w. refl;
}

-- The project "map" watches the file map.qgs.
abbrev pub project_tables : Store
project_tables = record {
  projects =
      record (new_project "map") { watchd = pos 1; configbasename = "map.qgs"; nr_crashs = 4 }
      ∷ new_project "old"
      ∷ [];
  processes = [];
  has_list_change = false;
  closed = [];
  signals = [];
}

manage_project_changes-Reloads_example :
    let c = config_has_changed old_config new_config in
    (m : Managed) × (manage_project_changes files new_config project_tables
        (some c.sectionnew)
        (some c.sectionchanged)
        (some c.sectiondelete)
      ≡ ok m)
    × Reloads new_config project_tables c m
unfolding get_names_project
manage_project_changes-Reloads_example =
    manage_project_changes-Reloads files old_config new_config project_tables files-Works
      old_config-IsSound new_config-IsSound (λ n. refl)

abbrev moved : InotifyEvent
moved = record { wd = pos 1; mask = in_moved_to; name = "map.qgs" }

inotify_events-restarted_example :
    (starts : List Start) × (inotify_events false new_config project_tables (moved ∷ []) ≡ record {
      managed = record { store = with_reset ("map" ∷ []) project_tables; starts = starts };
      ends = false;
    })
    × Restarts new_config project_tables ("map" ∷ []) starts
unfolding get_projects_for_watchd_and_config
inotify_events-restarted_example = inotify_events-restarted new_config project_tables (moved ∷ [])

-- An array of one element, which is full.
abbrev full_array : Array ℕ
full_array = record { cells = some (some 7 ∷ []); nelem = 1; nlen = 1 }

arraycat-Appends_example : Appends (7 ∷ []) 8 1 (arraycat full_array 8)
arraycat-Appends_example =
    arraycat-Appends (7 ∷ []) full_array 8
      (IsArray.allocated (some 7 ∷ []) 1 1 refl refl refl (omega arith)) (omega arith)

abbrev three_bytes : MemBuffer
three_bytes = record {
  buffer = some (some 1 ∷ some 2 ∷ some 3 ∷ none ∷ []);
  buffersize = 4;
  bufferlen = 3;
}

three_bytes-IsBuffer : IsBuffer (1 ∷ 2 ∷ 3 ∷ []) three_bytes
three_bytes-IsBuffer = record {
  holds = refl;
  size = refl;
  len = refl;
  room = omega arith;
  small = omega arith;
}

membcat-CatsTo_example :
    CatsTo (1 ∷ 2 ∷ 3 ∷ []) three_bytes (4 ∷ 5 ∷ []) (membcat three_bytes (4 ∷ 5 ∷ []))
membcat-CatsTo_example =
    membcat-CatsTo (1 ∷ 2 ∷ 3 ∷ []) three_bytes (4 ∷ 5 ∷ []) three_bytes-IsBuffer (omega arith)

abbrev short_text : TextBuffer
short_text = record { buffer = 65 ∷ []; len = 2 }

strnbcat-Appended_example : Appended short_text (66 ∷ 67 ∷ []) (strnbcat short_text (66 ∷ 67 ∷ []))
strnbcat-Appended_example = strnbcat-Appended short_text (66 ∷ 67 ∷ []) (omega arith) (omega arith)

average_time-close_example :
    let a = average_time 10 500_000_000 4 in
    (a.avg_conn_msec < 1000)
    × (milliseconds_of a * 4 * 1_000_000 ≤ 10 * 1_000_000_000 + 500_000_000)
    × (10 * 1_000_000_000 + 500_000_000 < (milliseconds_of a + 2) * 4 * 1_000_000)
average_time-close_example = average_time-close 10 500_000_000 4 (omega arith)
