-- ===== src/Tests/Storage.antt =====
-- A disk in memory: the files of all directories with their inodes, and the open files. Every file
-- that is opened has the descriptor 3.
use sqlbus.Prelude.{
  ℕ, suc, ◌≡◌, refl, sym, ap, ◌∙◌, Bool, true, false, Option, none, some, List, [], ◌∷◌, Bytes, ℤ,
  pos, ◌==ℤ◌, Bool-cases, inl, inr, strcmp_eq, strcmp_sound, strcmp_refl, if◌then◌else◌, ◌==◌,
  arith,
}
use mathlib.Core.Bool.{true≢false}
use mathlib.Core.Option.{none-ne-some, some-injective}
use sqlbus.Disk.{Disk, Names, Filing, Stat, inode_of, contains, in_directory}

pub record Store : Type 0 where
  pub files : List (Bytes × ℕ)
  pub opened : ℤ → Option ℕ
  pub next : ℕ

unfoldable pub lookup : List (Bytes × ℕ) → Bytes → Option ℕ
lookup [] p = none
lookup ((q, i) ∷ files) p = if strcmp_eq p q then some i else lookup files p

unfoldable pub remove : List (Bytes × ℕ) → Bytes → List (Bytes × ℕ)
remove [] p = []
remove ((q, i) ∷ files) p =
    let rest = remove files p in if strcmp_eq p q then rest else (q, i) ∷ rest

unfoldable pub moved : List (Bytes × ℕ) → Bytes → Bytes → Option ℕ → List (Bytes × ℕ)
moved files p q none = files
moved files p q (some i) = (q, i) ∷ remove files p

-- What stands behind a directory in a path
unfoldable pub name_in : Bytes → Bytes → Option Bytes
name_in [] [] = none
name_in [] (c ∷ p) = if c == b'/' then some p else none
name_in (d ∷ catalog) [] = none
name_in (d ∷ catalog) (c ∷ p) = if c == d then name_in catalog p else none

abbrev add_name : Option Bytes → List Bytes → List Bytes
add_name none names = names
add_name (some name) names = name ∷ names

unfoldable pub listing : Bytes → List (Bytes × ℕ) → List Bytes
listing catalog [] = []
listing catalog ((p, i) ∷ files) = add_name (name_in catalog p) (listing catalog files)

abbrev set_opened : ℕ → (ℤ → Option ℕ) → ℤ → Option ℕ
set_opened i opened fd = if fd ==ℤ pos 3 then some i else opened fd

abbrev opened_file : Bytes → Option ℕ → Store → Store
opened_file p (some i) w = record w { opened = set_opened i w.opened }
opened_file p none w = record w {
  files = (p, w.next) ∷ w.files;
  opened = set_opened w.next w.opened;
  next = suc w.next;
}

abbrev stat_of : Option ℕ → Option Stat
stat_of none = none
stat_of (some i) = some (record { inode = i; size = 100 })

abbrev pub storage : Disk
storage = record {
  World = Store;
  errno = λ w. pos 2;
  clear_errno = λ w. w;
  stat = λ p w. (stat_of (lookup w.files p), w);
  fstat = λ fd w. (w.opened fd, w);
  open_append = λ p w. (some (pos 3), opened_file p (lookup w.files p) w);
  close = λ fd w. w;
  fsync = λ fd w. w;
  rename = λ p q w. record w { files = moved w.files p q (lookup w.files p) };
  mkdir = λ p mode w. (true, record w { files = (p, w.next) ∷ w.files; next = suc w.next });
  chmod = λ p mode w. w;
  list_dir = λ catalog w. (some (listing catalog w.files), w);
  add_watch = λ fd p w. w;
  rm_watch = λ fd wd w. w;
  time = λ w. (0, w);
  mktime = λ t. t;
}

abbrev pub storage_names : Names storage
storage_names = record { entry = λ w p. lookup w.files p; opened = λ w fd. w.opened fd }

inode_of-stat_of : (o : Option ℕ) → inode_of (stat_of o) ≡ o
inode_of-stat_of none = refl
inode_of-stat_of (some i) = refl

-- Twice the same test, and two tests of which only one holds
same_test :
    (b : Bool) (x y : Option ℕ) → (if b then none else y) ≡ (if b then none else if b then x else y)
same_test true x y = refl
same_test false x y = refl

two_tests :
    (b c : Bool) (x y : Option ℕ)
    → (b ≡ true → c ≡ true → ⊥)
    → (if c then x else if b then none else y) ≡ (if b then none else if c then x else y)
two_tests true true x y h = absurd (h refl refl)
two_tests true false x y h = refl
two_tests false c x y h = refl

lookup-remove :
    (files : List (Bytes × ℕ)) (p r : Bytes)
    → lookup (remove files p) r ≡ (if strcmp_eq r p then none else lookup files r)
unfolding lookup remove
lookup-remove [] p r = ground arith
lookup-remove ((q, i) ∷ files) p r = elim (Bool-cases (strcmp_eq p q)) [
  | inl e ↦ rw (e) (
      lookup-remove files p r
      ∙ same_test (strcmp_eq r p) (some i) (lookup files r)
      ∙ ap (λ b. if strcmp_eq r p then none else if b then some i else lookup files r)
          (ap (strcmp_eq r) (strcmp_sound p q e)))
  | inr e ↦
      rw (e, lookup-remove files p r)
        (two_tests (strcmp_eq r p) (strcmp_eq r q) (some i) (lookup files r)
          (λ h k. true≢false (sym (ap (λ x. strcmp_eq x q) (sym (strcmp_sound r p h)) ∙ k) ∙ e)))
]

name_in-directory : (catalog file : Bytes) → name_in catalog (in_directory catalog file) ≡ some file
unfolding name_in
name_in-directory [] file = refl
name_in-directory (c ∷ catalog) file = ground (arith, name_in-directory catalog file)

listed :
    (catalog file : Bytes) (files : List (Bytes × ℕ)) (i : ℕ)
    → lookup files (in_directory catalog file) ≡ some i
    → contains (listing catalog files) file ≡ true
unfolding lookup listing
listed catalog file [] i e = absurd (none-ne-some i e)
listed catalog file ((p, j) ∷ files) i e =
    elim (Bool-cases (strcmp_eq (in_directory catalog file) p)) [
      | inl h ↦ here (strcmp_sound (in_directory catalog file) p h)
      | inr h ↦ later (name_in catalog p) (listed catalog file files i (rw h at e))
    ]
  where
    here :
        in_directory catalog file ≡ p
        → contains (add_name (name_in catalog p) (listing catalog files)) file ≡ true
    here h = rw (sym h, name_in-directory catalog file, strcmp_refl file) refl

    later :
        (o : Option Bytes)
        → contains (listing catalog files) file ≡ true
        → contains (add_name o (listing catalog files)) file ≡ true
    later none l = l
    later (some n) l = ground (arith, l)

opened_lem :
    (p : Bytes) (fd : ℤ) (w : Store) (o : Option ℕ)
    → lookup w.files p ≡ o
    → pos 3 ≡ fd
    → (i : ℕ) × (lookup (opened_file p o w).files p ≡ some i)
      × ((opened_file p o w).opened fd ≡ some i)
unfolding lookup
opened_lem p fd w none e h = (w.next, rw (strcmp_refl p) refl, rw (sym h) refl)
opened_lem p fd w (some i) e h = (i, e, rw (sym h) refl)

others_lem :
    (p q : Bytes) (w : Store) (o : Option ℕ)
    → strcmp_eq q p ≡ false
    → lookup (opened_file p o w).files q ≡ lookup w.files q
unfolding lookup
others_lem p q w none e = rw (e) refl
others_lem p q w (some i) e = refl

pub storage_filing : (catalog : Bytes) → Filing storage storage_names catalog
unfolding lookup moved
storage_filing catalog = record {
  stat_reply = λ p w. inode_of-stat_of (lookup w.files p);
  stat-Keeps = λ p w. (refl, refl);
  fstat_reply = λ fd w. refl;
  fstat-Keeps = λ fd w. (refl, refl);
  fsync-Keeps = λ fd w. (refl, refl);
  add_watch-Keeps = λ fd p w. (refl, refl);
  rm_watch-Keeps = λ fd wd w. (refl, refl);
  clear_errno-Keeps = λ w. (refl, refl);
  time-Keeps = λ w. (refl, refl);
  list_reply = λ file names i w n e f.
      ap (λ ns. contains ns file) (sym (some-injective _ _ e)) ∙ listed catalog file w.files i f;
  list-Keeps = λ w. (refl, refl);
  rename-opened = λ p q w. refl;
  rename-missing = λ p q w e. rw (e) refl;
  rename-moved = λ p q r i w a b c e f. rw (e, lookup-remove w.files p r) refl;
  close-entry = λ fd w. refl;
  open-opened = λ p fd w e. opened_lem p fd w (lookup w.files p) refl (some-injective _ _ e);
  open-others = λ p q w a b e. others_lem p q w (lookup w.files p) e;
}
