-- ===== src/Examples/Included.antt =====
-- A configuration that includes three files of a directory.
use qgis_scheduler.Prelude.{
  refl, true, false, none, some, [], ◌∷◌, if◌then◌else◌, str_eq, codes, pos, arith,
}
use qgis_scheduler.Config.{Dictionary}
use qgis_scheduler.Config.Includes.{Library, holds, found, iniparser_load_with_include}
use qgis_scheduler.Config.Merges.{Works, Reads, iniparser_load_with_include-Reads}
use qgis_scheduler.Examples.Configuration.{old_config, new_config, one_value}

-- The main file names the pattern conf.d/*.
abbrev main_config : Dictionary
main_config = record old_config { value = one_value ":include" "conf.d/*" }

-- a.conf has a configuration, b.conf cannot be parsed, c is a directory.
abbrev library : Library
library = record {
  load = λ path.
      if str_eq path "/etc/main.conf"
      then some main_config
      else if str_eq path "/etc/conf.d/a.conf"
      then some new_config
      else none;
  parse = λ bytes. some new_config;
  dump = λ d. codes "[new]";
  content = λ path. holds (codes ":include = conf.d/*");
  is_regular = λ path. some (if str_eq path "/etc/conf.d/c" then false else true);
  glob = λ pattern. found ("/etc/conf.d/a.conf" ∷ "/etc/conf.d/b.conf" ∷ "/etc/conf.d/c" ∷ []);
  dirname = λ path. "/etc";
  makes_file = true;
  writes = true;
  closes = true;
  removes = true;
}

library-Works : Works library
library-Works = record {
  makes = refl;
  writes = refl;
  closes = refl;
  removes = refl;
  globs = λ pattern. refl;
  stats = λ path h. absurd (ground (arith, h));
}

iniparser_load_with_include-Reads_example :
    Reads library
      (pos 0)
      "/etc/main.conf"
      (codes ":include = conf.d/*")
      (some main_config)
      (iniparser_load_with_include library (pos 0) "/etc/main.conf")
iniparser_load_with_include-Reads_example =
    iniparser_load_with_include-Reads library (pos 0) "/etc/main.conf" (codes ":include = conf.d/*")
      library-Works refl
