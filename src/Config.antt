-- ===== src/Config.antt =====
-- qgis_config.c: the values that the program reads from its configuration, and what a new
-- configuration changes. The iniparser library's dictionary is a parameter; a pointer to a text is
-- NULL, INVALID_STRING or a text.
pub mod Changes
pub mod Values
pub mod Lookup
pub mod Includes
pub mod Merges
use Prim.Native.String.{◌++◌ as join}
use qgis_scheduler.Prelude.{
  ℕ, ◌^◌, ◌-◌, ◌≡◌, Bool, true, false, not, ◌&&◌, Option, none, some, List, [], ◌∷◌, if◌then◌else◌,
  String, ℤ, pos, negsuc, eqb_ℤ, contains, All, AllDifferent,
}

-- What the library's functions find: iniparser_getsecname() for each section, iniparser_find_entry(),
-- iniparser_getseckeys(), iniparser_getstring() and iniparser_getint(), with `none` where the last two
-- give back their default.
pub record Dictionary : Type 0 where
  pub secnames : List String
  pub has_entry : String → Bool
  pub seckeys : String → List String
  pub value : String → Option String
  pub int_value : String → Option ℤ

-- const char *: INVALID_STRING is (char *)-1.
pub data Pointer : Type 0 where
  null : Pointer
  invalid_string : Pointer
  text : String → Pointer

abbrev pub is_invalid : Pointer → Bool
is_invalid invalid_string = true
is_invalid _ = false

unfoldable pub getstring : Dictionary → String → Pointer → Pointer
getstring d key default = elim (d.value key) [ none ↦ default | some v ↦ text v ]

unfoldable pub getint : Dictionary → String → ℤ → ℤ
getint d key default = elim (d.int_value key) [ none ↦ default | some v ↦ v ]

abbrev pub int32_min : ℤ
int32_min = negsuc (2 ^ 31 - 1)

-- A pointer that is NULL where no project is meant.
abbrev pub Name : Type 0
Name = Option String

unfoldable pub global_config_string : Dictionary → String → Pointer → Pointer
global_config_string d key default = getstring d key default

unfoldable pub global_config_int : Dictionary → String → ℤ → ℤ
global_config_int d key default = getint d key default

unfoldable pub project_config_string : Dictionary → Name → String → Pointer → Pointer
project_config_string d project key default =
    let ret : Pointer = elim project [
      | none ↦ default
      | some p ↦ getstring d (join p key) invalid_string
    ] in
    if is_invalid ret then getstring d key default else ret

unfoldable pub project_only_config_string : Dictionary → Name → String → Pointer → Pointer
project_only_config_string d project key default = elim project [
  | none ↦ default
  | some p ↦ getstring d (join p key) default
]

-- `decimal` is the text that asprintf() writes for %d.
unfoldable pub project_numbered_config_string :
    (ℕ → String) → Dictionary → Name → String → Pointer → ℕ → Pointer
project_numbered_config_string decimal d project key default num =
    let ret : Pointer = elim project [
      | none ↦ invalid_string
      | some p ↦ getstring d (join (join p key) (decimal num)) invalid_string
    ] in
    if is_invalid ret then getstring d (join key (decimal num)) default else ret

unfoldable pub project_config_int : Dictionary → Name → String → ℤ → ℤ
project_config_int d project key default =
    let ret : ℤ = elim project [ none ↦ int32_min | some p ↦ getint d (join p key) int32_min ] in
    if eqb_ℤ ret int32_min then getint d key default else ret
