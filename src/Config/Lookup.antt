-- ===== src/Config/Lookup.antt =====
-- qgis_config.c: in which order the sections are asked for a value.
use Prim.Native.String.{◌++◌ as join}
use qgis_scheduler.Prelude.{
  ℕ, ◌≡◌, ◌≢◌, inl, inr, refl, false, Option, none, some, List, [], ◌∷◌, String, ℤ, pos, eqb_ℤ,
  eq_of_parts, arith, length, ◌+◌, ◌≤◌, lt→ltb, Option-cases,
}
use qgis_scheduler.Outcome.{Outcome, ok, fault, exit_failure}
use qgis_scheduler.Config.{
  Dictionary, global_config_int, Pointer, text, is_invalid, int32_min, getstring, getint,
  project_config_string, project_only_config_string, project_numbered_config_string,
  project_config_int,
}
use qgis_scheduler.Config.Changes.{
  Changes, config_has_changed, Classifies, config_has_changed-Classifies, IsSound,
}
use qgis_scheduler.Config.Values.{
  Config, Loaded, convert_loop, config_get_abort, config_load, config_convert_list_to_array,
  load_changes, settle_values,
}

-- The first value that is there.
abbrev pub first_of : List (Option String) → Pointer → Pointer
first_of [] default = default
first_of (none ∷ rest) default = first_of rest default
first_of (some v ∷ rest) default = text v

abbrev pub first_int : List (Option ℤ) → ℤ → ℤ
first_int [] default = default
first_int (none ∷ rest) default = first_int rest default
first_int (some v ∷ rest) default = v

module _ (decimal : ℕ → String) (d : Dictionary) (p key : String) (num : ℕ) where
  -- A value is asked for at the project's key, then at the global key, then the default is taken, if the
  -- default is not the invalid string and the project's number is not the marker of a missing one. The
  -- getter for the project alone skips the global key. Without a project, the numbered getter and the one
  -- for numbers ask the global key, and the one for strings gives the default.
  pub project_config_order :
      (default : Pointer) (default_int : ℤ)
      → is_invalid default ≡ false
      → d.int_value (join p key) ≢ some int32_min
      → (project_config_string d (some p) key default
          ≡ first_of (d.value (join p key) ∷ d.value key ∷ []) default)
        × (project_numbered_config_string decimal d (some p) key default num
            ≡ first_of
                (d.value (join (join p key) (decimal num)) ∷ d.value (join key (decimal num)) ∷ [])
                default)
        × (project_only_config_string d (some p) key default
            ≡ first_of (d.value (join p key) ∷ []) default)
        × (project_config_int d (some p) key default_int
            ≡ first_int (d.int_value (join p key) ∷ d.int_value key ∷ []) default_int)
        × (project_config_string d none key default ≡ default)
        × (project_numbered_config_string decimal d none key default num
            ≡ first_of (d.value (join key (decimal num)) ∷ []) default)
        × (project_config_int d none key default_int ≡ first_int (d.int_value key ∷ []) default_int)
  unfolding project_config_string project_numbered_config_string project_only_config_string
      project_config_int getstring getint
  project_config_order default default_int h k =
      (ground arith, ground arith, ground arith, number, ground arith, ground arith, ground arith)
    where
      number :
          project_config_int d (some p) key default_int
          ≡ first_int (d.int_value (join p key) ∷ d.int_value key ∷ []) default_int
      number = elim (Option-cases (d.int_value (join p key))) [
        | inl e ↦ rw e (ground arith)
        | inr (v, e) ↦
            let differs : eqb_ℤ v int32_min ≡ false = ground (arith, eq_of_parts v int32_min) in
            rw e (ground (arith, differs))
      ]

convert-length :
    (n i : ℕ) (list : List String) → i + length list ≤ n → convert_loop n i list ≡ ok list
unfolding convert_loop
convert-length n i [] h = refl
convert-length n i (x ∷ xs) h =
    rw (convert_loop, lt→ltb i n (omega arith), convert-length n (i + 1) xs (omega arith)) refl

convert_list_to_array_lem : (list : List String) → config_convert_list_to_array list ≡ ok list
unfolding config_convert_list_to_array
convert_list_to_array_lem list = convert-length (length list) 0 list (omega arith)

-- After config_load() the module holds this dictionary, and the values kept from it.
abbrev Holds : Config → Dictionary → Type 0
Holds c d =
    (c.config_opts ≡ some d)
    × (c.debuglevel ≡ first_int (d.int_value ":debuglevel" ∷ []) (pos 0))
    × (c.abort_on_error ≡ first_int (d.int_value ":abort_on_error" ∷ []) (pos 0))

settle_values-Holds : (c : Config) (d : Dictionary) → Holds (settle_values c d) d
unfolding settle_values config_get_abort global_config_int getint
settle_values-Holds c d = (refl, ground arith, ground arith)

abbrev pub SoundIfAny : Option Dictionary → Type 0
SoundIfAny none = Unit
SoundIfAny (some d) = IsSound d

-- The lists are NULL unless there was a configuration and the new one is loaded.
abbrev pub Reports : Option Dictionary → Option Dictionary → Outcome Loaded → Type 0
Reports none none result = result ≡ fault exit_failure
Reports none (some new) result =
    (l : Loaded) × (result ≡ ok l)
    × Holds l.config new
    × (l.sectionnew ≡ some new.secnames)
    × (l.sectionchanged ≡ none)
    × (l.sectiondelete ≡ none)
Reports (some old) none result =
    (l : Loaded) × (result ≡ ok l)
    × Holds l.config old
    × (l.sectionnew ≡ none)
    × (l.sectionchanged ≡ none)
    × (l.sectiondelete ≡ none)
Reports (some old) (some new) result =
    (l : Loaded) × (c : Changes) × (result ≡ ok l)
    × Holds l.config new
    × (l.sectionnew ≡ some c.sectionnew)
    × (l.sectionchanged ≡ some c.sectionchanged)
    × (l.sectiondelete ≡ some c.sectiondelete)
    × Classifies old new c

-- `config_load`, given what the parser returned, for configurations that agree with themselves: without an
-- old or a new configuration the program ends; without an old one all sections are new; without a new one
-- the old one stays and nothing is reported; else the new one replaces the old one and its changes
-- are reported as they are.
pub config_load-Reports :
    (c : Config) (newconfig : Option Dictionary)
    → SoundIfAny c.config_opts
    → SoundIfAny newconfig
    → Reports c.config_opts newconfig (config_load c newconfig)
unfolding config_load load_changes
config_load-Reports c newconfig s t = by_cases c.config_opts newconfig refl s t
  where
    by_cases :
        (old new : Option Dictionary)
        → c.config_opts ≡ old
        → SoundIfAny old
        → SoundIfAny new
        → Reports old new (config_load c new)
    by_cases none none e s t = rw (config_load, e) refl
    by_cases none (some new) e s t =
        rw (config_load, e) (_, refl, settle_values-Holds c new, refl, refl, refl)
    by_cases (some old) none e s t =
        rw (config_load, e) (_, refl, settle_values-Holds c old, refl, refl, refl)
    by_cases (some old) (some new) e s t = (
      _,
      config_has_changed old new,
      rw
          (
            config_load, e, load_changes, convert_list_to_array_lem, convert_list_to_array_lem,
            convert_list_to_array_lem,
          )
          refl,
      settle_values-Holds c new,
      refl,
      refl,
      refl,
      config_has_changed-Classifies old new s t,
    )
