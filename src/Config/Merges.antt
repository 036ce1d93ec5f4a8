-- ===== src/Config/Merges.antt =====
-- qgis_config.c: what the parser reads of a configuration with included files.
use qgis_scheduler.Prelude.{
  ℕ, zero, suc, ◌<◌, ◌≡◌, ◌≢◌, refl, sym, ap, ◌∙◌, Bool, true, false, Bool-cases, inl, inr, Option,
  none, some, List, [], ◌∷◌, ◌++◌, arith, ltb, if◌then◌else◌, String, Bytes, length, take, drop, ℤ,
  pos, negsuc, append_assoc, append-nil, take-append-drop, length-take, length-drop, take-all,
}
use qgis_scheduler.Outcome.{Outcome, ok, fault, exit_failure, ◌>>=◌}
use qgis_scheduler.Config.{Dictionary, null, getstring, getint}
use qgis_scheduler.Config.Includes.{
  holds, Globbed, aborted, no_match, no_space, unknown, found, Library, Appended, dump_loaded,
  load_include_file, copy_loop, config_bufferlen, copy_config_file, include_loop, glob_find_file,
  include_pattern, read_again, load_copied, load_included, LoadedFile, follow_include,
  iniparser_load_with_include,
}

-- The loop copies the whole content, whatever its length.
copy_loop-copies :
    (n fuel : ℕ) (rest tmpf : Bytes)
    → 0 < n
    → length rest < fuel
    → copy_loop n true fuel rest tmpf ≡ ok (tmpf ++ rest)
unfolding copy_loop
copy_loop-copies n zero rest tmpf positive h = absurd (omega arith)
copy_loop-copies n (suc fuel) rest tmpf positive h =
    let taken = length-take n rest in
    let dropped = length-drop n rest in
    elim (Bool-cases (ltb (length (take n rest)) n)) [
      | inl last ↦
          let whole : take n rest ≡ rest = take-all n rest (ground (arith, taken, last)) in
          rw (copy_loop, last) (ap (λ bytes. ok (tmpf ++ bytes)) whole)
      | inr full ↦
          rw (copy_loop, full)
            (copy_loop-copies n fuel (drop n rest) (tmpf ++ take n rest) positive
                (ground (arith, taken, dropped, full))
              ∙ ap ok (
                  append_assoc tmpf (take n rest) (drop n rest)
                  ∙ ap (λ bytes. tmpf ++ bytes) (take-append-drop n rest)))
    ]

-- What a path that was found adds: the sections of a regular file that the parser can read.
abbrev pub part_of : Library → Option Bool → Option Dictionary → Bytes
part_of lib (some true) (some d) = lib.dump d
part_of lib _ _ = []

abbrev pub parts : Library → List String → Bytes
parts lib [] = []
parts lib (path ∷ paths) = part_of lib (lib.is_regular path) (lib.load path) ++ parts lib paths

-- The calls on the temporary file work, glob() does not run out of memory, and what it finds can be
-- looked at.
abbrev pub is_usual : Globbed → Bool
is_usual no_space = false
is_usual unknown = false
is_usual _ = true

abbrev pub paths_of : Globbed → List String
paths_of (found paths) = paths
paths_of _ = []

pub record Works (lib : Library) : Type 0 where
  pub makes : lib.makes_file ≡ true
  pub writes : lib.writes ≡ true
  pub closes : lib.closes ≡ true
  pub removes : lib.removes ≡ true
  pub globs : (pattern : String) → is_usual (lib.glob pattern) ≡ true
  pub stats : (path : String) → lib.is_regular path ≢ none

load_include_file-adds :
    (lib : Library) (tmpf : Bytes) (path : String) (regular : Option Bool) (d : Option Dictionary)
    → regular ≢ none
    → lib.is_regular path ≡ regular
    → lib.load path ≡ d
    → (a : Appended) × (load_include_file lib tmpf path ≡ ok a)
      × (a.tmpf ≡ tmpf ++ part_of lib regular d)
unfolding load_include_file dump_loaded
load_include_file-adds lib tmpf path none d there e f = absurd (there refl)
load_include_file-adds lib tmpf path (some false) d there e f = (
  record { tmpf = tmpf; retval = negsuc 0 },
  rw (load_include_file, e) refl,
  sym (append-nil tmpf),
)
load_include_file-adds lib tmpf path (some true) none there e f = (
  record { tmpf = tmpf; retval = negsuc 0 },
  rw (load_include_file, e, f) refl,
  sym (append-nil tmpf),
)
load_include_file-adds lib tmpf path (some true) (some d) there e f =
    (record { tmpf = tmpf ++ lib.dump d; retval = pos 0 }, rw (load_include_file, e, f) refl, refl)

include_loop-adds :
    (lib : Library) (tmpf : Bytes) (paths : List String)
    → Works lib
    → include_loop lib tmpf paths ≡ ok (tmpf ++ parts lib paths)
unfolding include_loop
include_loop-adds lib tmpf [] works = ap ok (sym (append-nil tmpf))
include_loop-adds lib tmpf (path ∷ paths) works =
    let (a, ran, added) =
      load_include_file-adds lib tmpf path (lib.is_regular path) (lib.load path) (works.stats path)
        refl refl in
    let part = part_of lib (lib.is_regular path) (lib.load path) in
    ap (λ o. o >>= λ (r : Appended). include_loop lib r.tmpf paths) ran
    ∙ include_loop-adds lib a.tmpf paths works
    ∙ ap (λ bytes. ok (bytes ++ parts lib paths)) added
    ∙ ap ok (append_assoc tmpf part (parts lib paths))

glob_find_file-adds :
    (lib : Library) (tmpf : Bytes) (pattern : String) (g : Globbed)
    → Works lib
    → lib.glob pattern ≡ g
    → is_usual g ≡ true
    → glob_find_file lib tmpf pattern ≡ ok (tmpf ++ parts lib (paths_of g))
unfolding glob_find_file
glob_find_file-adds lib tmpf pattern aborted works e u =
    rw (glob_find_file, e) (ap ok (sym (append-nil tmpf)))
glob_find_file-adds lib tmpf pattern no_match works e u =
    rw (glob_find_file, e) (ap ok (sym (append-nil tmpf)))
glob_find_file-adds lib tmpf pattern no_space works e u = absurd (ground (arith, u))
glob_find_file-adds lib tmpf pattern unknown works e u = absurd (ground (arith, u))
glob_find_file-adds lib tmpf pattern (found paths) works e u =
    rw (glob_find_file, e) (include_loop-adds lib tmpf paths works)

-- What the parser is given: the main file, and behind it what the files add that match the pattern.
abbrev pub merged : Library → String → String → Bytes → Bytes
merged lib configpath pattern main =
    main ++ parts lib (paths_of (lib.glob (include_pattern lib configpath pattern)))

copy_config_file-copies :
    (lib : Library) (configpath : String) (main : Bytes)
    → Works lib
    → lib.content configpath ≡ holds main
    → copy_config_file lib [] configpath ≡ ok main
unfolding copy_config_file
copy_config_file-copies lib configpath main works e =
    rw (copy_config_file, e, works.writes, works.closes)
      (ap (λ o. o >>= λ copied. if true then ok copied else fault exit_failure)
        (copy_loop-copies config_bufferlen (suc (length main)) main [] (omega arith) (omega arith)))

read_again-parse :
    (lib : Library) (bytes : Bytes) (d : Option Dictionary)
    → Works lib
    → lib.parse bytes ≡ d
    → read_again lib bytes ≡ ok (lib.parse bytes)
unfolding read_again
read_again-parse lib bytes none works e = rw (read_again, e) refl
read_again-parse lib bytes (some config) works e = rw (read_again, e, works.removes) refl

load_included-merged :
    (lib : Library) (configpath pattern : String) (main : Bytes)
    → Works lib
    → lib.content configpath ≡ holds main
    → load_included lib configpath pattern ≡ ok (lib.parse (merged lib configpath pattern main))
unfolding load_included load_copied
load_included-merged lib configpath pattern main works e =
    let path = include_pattern lib configpath pattern in
    let all = merged lib configpath pattern main in
    ap (λ (b : Bool). if b then load_copied lib configpath path else fault exit_failure) works.makes
    ∙ ap
        (λ o. o >>= λ copied. glob_find_file lib copied path >>= λ tmpf.
          if lib.closes then read_again lib tmpf else fault exit_failure)
        (copy_config_file-copies lib configpath main works e)
    ∙ ap (λ o. o >>= λ tmpf. if lib.closes then read_again lib tmpf else fault exit_failure)
        (glob_find_file-adds lib main path (lib.glob path) works refl (works.globs path))
    ∙ ap (λ (b : Bool). if b then read_again lib all else fault exit_failure) works.closes
    ∙ read_again-parse lib all (lib.parse all) works refl

-- The configuration that counts, by the include setting of the main file.
abbrev pub effective : Library → String → Bytes → Dictionary → Option String → Option Dictionary
effective lib configpath main config none = some config
effective lib configpath main config (some pattern) = lib.parse (merged lib configpath pattern main)

-- By what the parser makes of the main file.
abbrev pub Reads : Library → ℤ → String → Bytes → Option Dictionary → Outcome LoadedFile → Type 0
Reads lib debuglevel configpath main none result =
    result ≡ ok (record { config = none; debuglevel = debuglevel })
Reads lib debuglevel configpath main (some config) result =
    result
    ≡ ok (record {
      config = effective lib configpath main config (config.value ":include");
      debuglevel = getint config ":debuglevel" (pos 0);
    })

follow_include-effective :
    (lib : Library) (configpath : String) (config : Dictionary) (main : Bytes)
    (setting : Option String)
    → Works lib
    → lib.content configpath ≡ holds main
    → config.value ":include" ≡ setting
    → follow_include lib configpath config (getstring config ":include" null)
      ≡ ok (record {
        config = effective lib configpath main config setting;
        debuglevel = getint config ":debuglevel" (pos 0);
      })
unfolding getstring follow_include
follow_include-effective lib configpath config main none works e s = rw (follow_include, s) refl
follow_include-effective lib configpath config main (some pattern) works e s =
    rw (follow_include, s)
      (ap
        (λ o. o >>= λ again.
          ok (record { config = again; debuglevel = getint config ":debuglevel" (pos 0) }))
        (load_included-merged lib configpath pattern main works e))

-- If the calls work, iniparser_load_with_include() gives nothing for a main file that the parser cannot
-- read, the main file's configuration if that has no include setting, and else what the parser makes of
-- one file: the main file as it is, behind it the sections of each file that the pattern finds, in the
-- order of glob(), without those that are not regular or that the parser cannot read. The debug level is
-- that of the main file.
pub iniparser_load_with_include-Reads :
    (lib : Library) (debuglevel : ℤ) (configpath : String) (main : Bytes)
    → Works lib
    → lib.content configpath ≡ holds main
    → Reads lib debuglevel configpath main
        (lib.load configpath)
        (iniparser_load_with_include lib debuglevel configpath)
unfolding iniparser_load_with_include
iniparser_load_with_include-Reads lib debuglevel configpath main works e =
    by_file (lib.load configpath) refl
  where
    by_file :
        (d : Option Dictionary)
        → lib.load configpath ≡ d
        → Reads lib debuglevel configpath main d
            (iniparser_load_with_include lib debuglevel configpath)
    by_file none l = rw (iniparser_load_with_include, l) refl
    by_file (some config) l =
        rw (iniparser_load_with_include, l)
          (follow_include-effective lib configpath config main (config.value ":include") works e
            refl)
