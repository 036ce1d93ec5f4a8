-- ===== src/Config/Changes.antt =====
-- qgis_config.c: the comparison of two configurations by their sections.
use qgis_scheduler.Prelude.{
  ◌≡◌, ◌↔◌, refl, inl, inr, Bool, true, false, not, ◌&&◌, Option, none, some, List, [], ◌∷◌, ◌++◌,
  ◌==◌, if◌then◌else◌, String, str_eq, eq_iff, eq_refl, subst, length, arith, contains,
  contains-select, AllDifferent-select, AllDifferent, All, All-contains, select, Bool-cases,
  subset-IsSubset, subset-length, IsSubset, append-nil, append_assoc,
}
use Prim.Native.Char.{code}
use qgis_scheduler.Config.{Dictionary}

-- The inner loop of config_test_for_section_change(): the first of the new keys that is the old one.
unfoldable pub find_key : String → List String → Option String
find_key oldkey [] = none
find_key oldkey (k ∷ newkeys) = if str_eq oldkey k then some k else find_key oldkey newkeys

-- iniparser_getstring() with the default "".
abbrev pub value_or_empty : Dictionary → String → String
value_or_empty d key = elim (d.value key) [ none ↦ "" | some v ↦ v ]

-- The outer loop; the result is true where the C code's is 1.
unfoldable pub keys_changed : Dictionary → Dictionary → List String → List String → Bool
unfolding find_key
keys_changed old new newkeys [] = false
keys_changed old new newkeys (oldkey ∷ oldkeys) =
    let rest = keys_changed old new newkeys oldkeys in
    elim (find_key oldkey newkeys) [
      | none ↦ true
      | some newkey ↦
          if str_eq (value_or_empty old oldkey) (value_or_empty new newkey) then rest else true
    ]

-- config_test_for_section_change()
unfoldable pub test_for_section_change : Dictionary → Dictionary → String → Bool
unfolding keys_changed
test_for_section_change old new section =
    if length (old.seckeys section) == length (new.seckeys section)
    then keys_changed old new (new.seckeys section) (old.seckeys section)
    else true

-- The three lists that config_has_changed() fills.
pub record Changes : Type 0 where
  pub sectionnew : List String
  pub sectionchanged : List String
  pub sectiondelete : List String

-- The loop over the sections of the old configuration.
unfoldable pub scan_old : Dictionary → Dictionary → List String → Changes → Changes
unfolding test_for_section_change
scan_old old new [] c = c
scan_old old new (secname ∷ rest) c = scan_old old new rest (
    if new.has_entry secname
    then (if test_for_section_change old new secname
        then record c { sectionchanged = c.sectionchanged ++ (secname ∷ []) }
        else c)
    else record c { sectiondelete = c.sectiondelete ++ (secname ∷ []) })

-- The loop over the sections of the new configuration.
unfoldable pub scan_new : Dictionary → List String → Changes → Changes
scan_new old [] c = c
scan_new old (secname ∷ rest) c =
    scan_new old rest (
      if old.has_entry secname then c else record c { sectionnew = c.sectionnew ++ (secname ∷ []) })

unfoldable pub config_has_changed : Dictionary → Dictionary → Changes
unfolding scan_old scan_new
config_has_changed old new = scan_new old new.secnames (
    scan_old old new old.secnames
      (record { sectionnew = []; sectionchanged = []; sectiondelete = [] }))

-- Documented of the library: a name of a section has no colon, a section is found by its name, and
-- neither the sections nor the keys of a section are there twice.
abbrev has_colon : String → Bool
has_colon String.[] = false
has_colon (String.◌∷◌ c s) = if code c == b':' then true else has_colon s

pub record IsSound (d : Dictionary) : Type 0 where
  pub names : All (λ s. has_colon s ≡ false) d.secnames
  pub sections : (s : String) → has_colon s ≡ false → d.has_entry s ≡ contains s d.secnames
  pub different_names : AllDifferent d.secnames
  pub different_keys : (s : String) → AllDifferent (d.seckeys s)

find_key-contains :
    (k : String) (newkeys : List String)
    → find_key k newkeys ≡ (if contains k newkeys then some k else none)
unfolding find_key
find_key-contains k [] = refl
find_key-contains k (x ∷ xs) = ground (arith, eq_iff k x, eq_iff x k, find_key-contains k xs)

abbrev KeepsKey : Dictionary → Dictionary → List String → String → Type 0
KeepsKey old new newkeys k =
    (contains k newkeys ≡ true) × (value_or_empty old k ≡ value_or_empty new k)

keys_changed_step :
    (old new : Dictionary) (newkeys : List String) (x : String) (xs : List String)
    → keys_changed old new newkeys (x ∷ xs) ≡ (
        if contains x newkeys && str_eq (value_or_empty old x) (value_or_empty new x)
        then keys_changed old new newkeys xs
        else true)
unfolding keys_changed
keys_changed_step old new newkeys x xs =
    rw (keys_changed, find_key-contains x newkeys) (ground arith)

-- The loop finds no change exactly if each old key is a new key of the same value.
keys_changed-KeepsKey :
    (old new : Dictionary) (newkeys oldkeys : List String)
    → keys_changed old new newkeys oldkeys ≡ false
    → (k : String) → contains k oldkeys ≡ true
    → KeepsKey old new newkeys k
keys_changed-KeepsKey old new newkeys [] h k c = absurd (ground arith)
keys_changed-KeepsKey old new newkeys (x ∷ xs) h k c =
    let here = eq_iff (value_or_empty old x) (value_or_empty new x) in
    let step = keys_changed_step old new newkeys x xs in
    elim (Bool-cases (str_eq x k)) [
      | inl e ↦ subst (KeepsKey old new newkeys) ((eq_iff x k).0 e) (ground (arith, here, step))
      | inr e ↦ keys_changed-KeepsKey old new newkeys xs (ground (arith, step)) k (ground arith)
    ]

KeepsKey-keys_changed :
    (old new : Dictionary) (newkeys oldkeys : List String)
    → ((k : String) → contains k oldkeys ≡ true → KeepsKey old new newkeys k)
    → keys_changed old new newkeys oldkeys ≡ false
unfolding keys_changed
KeepsKey-keys_changed old new newkeys [] h = refl
KeepsKey-keys_changed old new newkeys (x ∷ xs) h =
    let (found, same) = h x (ground (arith, eq_refl x)) in
    let rest = KeepsKey-keys_changed old new newkeys xs (λ k c. h k (ground arith)) in
    ground (
      arith,
      keys_changed_step old new newkeys x xs,
      eq_iff (value_or_empty old x) (value_or_empty new x),
    )

-- The two dictionaries have the same keys in this section, with the same values.
abbrev pub HasSameSection : Dictionary → Dictionary → String → Type 0
HasSameSection old new section =
    (k : String)
    → (contains k (old.seckeys section) ≡ contains k (new.seckeys section))
      × (contains k (old.seckeys section) ≡ true → value_or_empty old k ≡ value_or_empty new k)

-- For two configurations that agree with themselves, `config_test_for_section_change` finds no change
-- exactly if the section has the same keys in both, with the same values.
pub test_for_section_change_iff :
    (old new : Dictionary) (section : String)
    → IsSound old
    → IsSound new
    → (test_for_section_change old new section ≡ false) ↔ HasSameSection old new section
unfolding test_for_section_change
test_for_section_change_iff old new section s t = (there, back)
  where
    there : test_for_section_change old new section ≡ false → HasSameSection old new section
    there h k =
        let keeps : (k : String)
            → contains k (old.seckeys section) ≡ true
            → KeepsKey old new (new.seckeys section) k =
          keys_changed-KeepsKey old new (new.seckeys section) (old.seckeys section)
            (ground arith) in
        let back_in : IsSubset (new.seckeys section) (old.seckeys section) =
          subset-IsSubset (old.seckeys section) (new.seckeys section) (s.different_keys section)
            (λ n c. (keeps n c).0) (ground arith) in
        (ground (arith, keeps k, back_in k), λ c. (keeps k c).1)

    back : HasSameSection old new section → test_for_section_change old new section ≡ false
    back h =
        let forth =
          subset-length (old.seckeys section) (new.seckeys section) (s.different_keys section)
            (λ n c. ground (arith, (h n).0)) in
        let back =
          subset-length (new.seckeys section) (old.seckeys section) (t.different_keys section)
            (λ n c. ground (arith, (h n).0)) in
        ground (
          arith,
          forth,
          back,
          KeepsKey-keys_changed old new (new.seckeys section) (old.seckeys section)
              (λ n c. (ground (arith, (h n).0), (h n).1 c)),
        )

-- What the loops collect, as selections of the two lists of sections.
scan_old-select :
    (old new : Dictionary) (names : List String) (c : Changes)
    → scan_old old new names c ≡ record {
      sectionnew = c.sectionnew;
      sectionchanged =
          c.sectionchanged
          ++ select (λ s. new.has_entry s && test_for_section_change old new s) names;
      sectiondelete = c.sectiondelete ++ select (λ s. not (new.has_entry s)) names;
    }
unfolding scan_old
scan_old-select old new [] c = simp (append-nil)
scan_old-select old new (x ∷ xs) c = elim (Bool-cases (new.has_entry x)) [
  | inr e ↦ rw (scan_old, e, scan_old-select old new xs) (simp (append_assoc))
  | inl e ↦ elim (Bool-cases (test_for_section_change old new x)) [
    | inl f ↦ rw (scan_old, e, f, scan_old-select old new xs) (simp (append_assoc))
    | inr f ↦ rw (scan_old, e, f, scan_old-select old new xs) refl
  ]
]

scan_new-select :
    (old : Dictionary) (names : List String) (c : Changes)
    → scan_new old names c
      ≡ record c { sectionnew = c.sectionnew ++ select (λ s. not (old.has_entry s)) names }
unfolding scan_new
scan_new-select old [] c = simp (append-nil)
scan_new-select old (x ∷ xs) c = elim (Bool-cases (old.has_entry x)) [
  | inl e ↦ rw (scan_new, e, scan_new-select old xs) refl
  | inr e ↦ rw (scan_new, e, scan_new-select old xs) (simp (append_assoc))
]

config_has_changed-select :
    (old new : Dictionary)
    → config_has_changed old new ≡ record {
      sectionnew = select (λ s. not (old.has_entry s)) new.secnames;
      sectionchanged =
          select (λ s. new.has_entry s && test_for_section_change old new s) old.secnames;
      sectiondelete = select (λ s. not (new.has_entry s)) old.secnames;
    }
unfolding config_has_changed
config_has_changed-select old new =
    rw (scan_old-select old new old.secnames, scan_new-select old new.secnames) refl

has_entry-contains :
    (d e : Dictionary) (s : String)
    → IsSound d
    → IsSound e
    → contains s e.secnames ≡ true
    → d.has_entry s ≡ contains s d.secnames
has_entry-contains d e s sound other c =
    sound.sections s (All-contains (λ s. has_colon s ≡ false) e.secnames s other.names c)

-- The lists have no name twice, and a section is new, deleted or changed as the two lists of
-- sections and the comparison of the section say.
pub record Classifies (old new : Dictionary) (c : Changes) : Type 0 where
  pub news :
      (s : String)
      → contains s c.sectionnew ≡ (contains s new.secnames && not (contains s old.secnames))
  pub deletes :
      (s : String)
      → contains s c.sectiondelete ≡ (contains s old.secnames && not (contains s new.secnames))
  pub changes :
      (s : String)
      → contains s c.sectionchanged ≡ (
          contains s old.secnames && (contains s new.secnames && test_for_section_change old new s))
  pub new_once : AllDifferent c.sectionnew
  pub delete_once : AllDifferent c.sectiondelete
  pub change_once : AllDifferent c.sectionchanged

-- For two configurations that agree with themselves, `config_has_changed` lists as new exactly the
-- sections of the new one that the old one has not, as deleted those of the old one that the new one
-- has not, and as changed those of both that `config_test_for_section_change` finds changed; none
-- twice.
pub config_has_changed-Classifies :
    (old new : Dictionary)
    → IsSound old
    → IsSound new
    → Classifies old new (config_has_changed old new)
config_has_changed-Classifies old new s t = rw (config_has_changed-select old new) (record {
  news = λ n. ground (
    arith,
    contains-select n (λ s. not (old.has_entry s)) new.secnames,
    has_entry-contains old new n s t,
  );
  deletes = λ n. ground (
    arith,
    contains-select n (λ s. not (new.has_entry s)) old.secnames,
    has_entry-contains new old n t s,
  );
  changes = λ n. ground (
    arith,
    contains-select n (λ s. new.has_entry s && test_for_section_change old new s) old.secnames,
    has_entry-contains new old n t s,
  );
  new_once = AllDifferent-select _ new.secnames t.different_names;
  delete_once = AllDifferent-select _ old.secnames s.different_names;
  change_once = AllDifferent-select _ old.secnames s.different_names;
})
