-- ===== src/Config/Includes.antt =====
-- qgis_config.c: the file of the configuration with the files that it includes.
use Prim.Native.String.{◌++◌ as join}
use qgis_scheduler.Prelude.{
  ℕ, zero, suc, Bool, false, not, ◌&&◌, Option, none, some, List, [], ◌∷◌, ◌++◌, ltb, ◌==◌,
  if◌then◌else◌, String, Bytes, codes, length, take, drop, ℤ, pos, negsuc,
}
use qgis_scheduler.Outcome.{Outcome, ok, fault, exit_failure, over_read, out_of_fuel, ◌>>=◌}
use qgis_scheduler.Config.{Dictionary, Pointer, null, invalid_string, text, getstring, getint}

-- fopen() and the reading of a whole file.
pub data Content : Type 0 where
  cannot_open cannot_read : Content
  holds : Bytes → Content

-- The results of glob().
pub data Globbed : Type 0 where
  aborted no_match no_space unknown : Globbed
  found : List String → Globbed

-- What the libraries do: iniparser_load() on a path and on a file with given bytes,
-- iniparser_dump_ini(), the content of a file, stat() with whether a file is regular, glob(),
-- dirname(), and whether the calls on the temporary file and fclose() succeed. A dump is written whole.
pub record Library : Type 0 where
  pub load : String → Option Dictionary
  pub parse : Bytes → Option Dictionary
  pub dump : Dictionary → Bytes
  pub content : String → Content
  pub is_regular : String → Option Bool
  pub glob : String → Globbed
  pub dirname : String → String
  pub makes_file : Bool
  pub writes : Bool
  pub closes : Bool
  pub removes : Bool

-- What is in the temporary file, and what the call returns.
pub record Appended : Type 0 where
  pub tmpf : Bytes
  pub retval : ℤ

unfoldable pub dump_loaded : Library → Bytes → Option Dictionary → Appended
dump_loaded lib tmpf none = record { tmpf = tmpf; retval = negsuc 0 }
dump_loaded lib tmpf (some myconfig) = record { tmpf = tmpf ++ lib.dump myconfig; retval = pos 0 }

unfoldable pub load_include_file : Library → Bytes → String → Outcome Appended
unfolding dump_loaded
load_include_file lib tmpf configpath = elim (lib.is_regular configpath) [
  | none ↦ fault exit_failure
  | some regular ↦ ok (
      if regular
      then dump_loaded lib tmpf (lib.load configpath)
      else record { tmpf = tmpf; retval = negsuc 0 })
]

-- The loop of copy_config_file(): a block that is not full is the last one.
unfoldable pub copy_loop : ℕ → Bool → ℕ → Bytes → Bytes → Outcome Bytes
copy_loop bufferlen writes zero rest tmpf = fault out_of_fuel
copy_loop bufferlen writes (suc fuel) rest tmpf =
    let block = take bufferlen rest in
    let more = copy_loop bufferlen writes fuel (drop bufferlen rest) (tmpf ++ block) in
    if not writes && ltb 0 (length block)
    then fault exit_failure
    else if ltb (length block) bufferlen
    then ok (tmpf ++ block)
    else more

abbrev pub config_bufferlen : ℕ
config_bufferlen = 4096

unfoldable pub copy_config_file : Library → Bytes → String → Outcome Bytes
copy_config_file lib tmpf configpath = elim (lib.content configpath) [
  | cannot_open ↦ fault exit_failure
  | cannot_read ↦ fault exit_failure
  | holds bytes ↦ do
    copied ← copy_loop config_bufferlen lib.writes (suc (length bytes)) bytes tmpf
    if lib.closes then ok copied else fault exit_failure
]

-- The loop over the paths that were found; its results are only logged.
unfoldable pub include_loop : Library → Bytes → List String → Outcome Bytes
unfolding load_include_file
include_loop lib tmpf [] = ok tmpf
include_loop lib tmpf (path ∷ paths) = do
  a ← load_include_file lib tmpf path
  include_loop lib a.tmpf paths

unfoldable pub glob_find_file : Library → Bytes → String → Outcome Bytes
unfolding include_loop
glob_find_file lib tmpf includepattern = elim (lib.glob includepattern) [
  | aborted ↦ ok tmpf
  | no_match ↦ ok tmpf
  | no_space ↦ fault exit_failure
  | unknown ↦ fault exit_failure
  | found paths ↦ include_loop lib tmpf paths
]

abbrev pub starts_with_slash : Bytes → Bool
starts_with_slash [] = false
starts_with_slash (b ∷ bytes) = b == 47

-- The pattern, from the directory of the configuration if it is relative.
unfoldable pub include_pattern : Library → String → String → String
include_pattern lib configpath pattern =
    if starts_with_slash (codes pattern)
    then pattern
    else join (join (lib.dirname configpath) "/") pattern

unfoldable pub read_again : Library → Bytes → Outcome (Option Dictionary)
read_again lib tmpf = elim (lib.parse tmpf) [
  | none ↦ ok none
  | some config ↦ if lib.removes then ok (some config) else fault exit_failure
]

-- The part behind the opening of the temporary file.
unfoldable pub load_copied : Library → String → String → Outcome (Option Dictionary)
unfolding copy_config_file glob_find_file read_again
load_copied lib configpath includepattern = do
  copied ← copy_config_file lib [] configpath
  tmpf ← glob_find_file lib copied includepattern
  if lib.closes then read_again lib tmpf else fault exit_failure

-- The part for a configuration with an include setting.
unfoldable pub load_included : Library → String → String → Outcome (Option Dictionary)
unfolding load_copied include_pattern
load_included lib configpath pattern =
    if lib.makes_file
    then load_copied lib configpath (include_pattern lib configpath pattern)
    else fault exit_failure

-- The configuration, and the variable debuglevel of the module.
pub record LoadedFile : Type 0 where
  pub config : Option Dictionary
  pub debuglevel : ℤ

-- The part for a file that was read; the getter never gives INVALID_STRING here.
unfoldable pub follow_include : Library → String → Dictionary → Pointer → Outcome LoadedFile
unfolding load_included
follow_include lib configpath config null =
    ok (record { config = some config; debuglevel = getint config ":debuglevel" (pos 0) })
follow_include lib configpath config invalid_string = fault over_read
follow_include lib configpath config (text pattern) = do
  again ← load_included lib configpath pattern
  ok (record { config = again; debuglevel = getint config ":debuglevel" (pos 0) })

unfoldable pub iniparser_load_with_include : Library → ℤ → String → Outcome LoadedFile
unfolding follow_include
iniparser_load_with_include lib debuglevel configpath = elim (lib.load configpath) [
  | none ↦ ok (record { config = none; debuglevel = debuglevel })
  | some config ↦ follow_include lib configpath config (getstring config ":include" null)
]
