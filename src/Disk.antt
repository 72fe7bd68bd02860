-- ===== src/Disk.antt =====
-- The calls of the operating system on files, directories, watches and clocks that src/log.c,
-- src/log_watcher.c and src/util.c make, and what the theorems rely on of a directory.
use sqlbus.Prelude.{
  ℕ, ◌≤◌, ◌==◌, all, not, length, ◌≡◌, Bool, true, false, Option, none, some, List, [], ◌∷◌, ◌++◌,
  ◌||◌, strcmp_eq, Bytes, ℤ, if◌then◌else◌,
}

-- What stat tells: the inode and the size.
pub record Stat : Type 0 where
  pub inode : ℕ
  pub size : ℕ

abbrev pub inode_of : Option Stat → Option ℕ
inode_of none = none
inode_of (some s) = some s.inode

pub record Disk : Type 1 where
  pub World : Type 0
  pub errno : World → ℤ
  pub clear_errno : World → World
  pub stat : Bytes → World → Option Stat × World
  -- The inode of an open file
  pub fstat : ℤ → World → Option ℕ × World
  -- open with O_CREAT | O_WRONLY | O_APPEND; none stands for a negative result.
  pub open_append : Bytes → World → Option ℤ × World
  pub close : ℤ → World → World
  pub fsync : ℤ → World → World
  pub rename : Bytes → Bytes → World → World
  -- mkdir: false is a failure.
  pub mkdir : Bytes → ℕ → World → Bool × World
  pub chmod : Bytes → ℕ → World → World
  -- opendir and readdir up to the end, and closedir
  pub list_dir : Bytes → World → Option (List Bytes) × World
  pub add_watch : ℤ → Bytes → World → World
  pub rm_watch : ℤ → ℤ → World → World
  -- time, and mktime of the broken-down time that gmtime gives for a second
  pub time : World → ℕ × World
  pub mktime : ℕ → ℕ

-- What a world shows: the inode that a path names, and the inode of an open file.
pub record Names (D : Disk) : Type 0 where
  pub entry : Disk.World D → Bytes → Option ℕ
  pub opened : Disk.World D → ℤ → Option ℕ

-- Both are as they were.
abbrev pub Keeps : (D : Disk) → Names D → Disk.World D → Disk.World D → Type 0
Keeps D N w v = (Names.entry N v ≡ Names.entry N w) × (Names.opened N v ≡ Names.opened N w)

abbrev pub contains : List Bytes → Bytes → Bool
contains [] x = false
contains (y ∷ ys) x = strcmp_eq x y || contains ys x

-- A file in a directory
abbrev pub in_directory : Bytes → Bytes → Bytes
in_directory catalog file = catalog ++ (b'/' ∷ file)

-- A name that a directory can hold: no slash, not empty, and at most 255 bytes.
abbrev pub IsName : Bytes → Type 0
IsName c = (all (λ x. not (x == b'/')) c ≡ true) × (1 ≤ length c) × (length c ≤ 255)

-- A path of a file in a directory, spelled with one slash
abbrev pub InDirectory : Bytes → Bytes → Type 0
InDirectory catalog p = (c : Bytes) × (p ≡ in_directory catalog c) × IsName c

-- A directory that is there and can be read and written: where rename of a file in it, to a name in
-- it that is free, succeeds. Of the paths to its files, those spelled with one slash are looked at.
pub record Filing (D : Disk) (N : Names D) (catalog : Bytes) : Type 0 where
  pub stat_reply : (p : Bytes) (w : Disk.World D) → inode_of (Disk.stat D p w).0 ≡ Names.entry N w p
  pub stat-Keeps : (p : Bytes) (w : Disk.World D) → Keeps D N w (Disk.stat D p w).1
  pub fstat_reply : (fd : ℤ) (w : Disk.World D) → (Disk.fstat D fd w).0 ≡ Names.opened N w fd
  pub fstat-Keeps : (fd : ℤ) (w : Disk.World D) → Keeps D N w (Disk.fstat D fd w).1
  pub fsync-Keeps : (fd : ℤ) (w : Disk.World D) → Keeps D N w (Disk.fsync D fd w)
  pub add_watch-Keeps :
      (fd : ℤ) (p : Bytes) (w : Disk.World D) → Keeps D N w (Disk.add_watch D fd p w)
  pub rm_watch-Keeps : (fd wd : ℤ) (w : Disk.World D) → Keeps D N w (Disk.rm_watch D fd wd w)
  pub clear_errno-Keeps : (w : Disk.World D) → Keeps D N w (Disk.clear_errno D w)
  pub time-Keeps : (w : Disk.World D) → Keeps D N w (Disk.time D w).1
  -- A directory lists the names of its files.
  pub list_reply :
      (file : Bytes) (names : List Bytes) (i : ℕ) (w : Disk.World D)
      → IsName file
      → (Disk.list_dir D catalog w).0 ≡ some names
      → Names.entry N w (in_directory catalog file) ≡ some i
      → contains names file ≡ true
  pub list-Keeps : (w : Disk.World D) → Keeps D N w (Disk.list_dir D catalog w).1
  -- rename moves a file to a name that is free, and fails where there is no file.
  pub rename-opened :
      (p q : Bytes) (w : Disk.World D) → Names.opened N (Disk.rename D p q w) ≡ Names.opened N w
  pub rename-missing :
      (p q : Bytes) (w : Disk.World D)
      → Names.entry N w p ≡ none
      → Names.entry N (Disk.rename D p q w) ≡ Names.entry N w
  pub rename-moved :
      (p q r : Bytes) (i : ℕ) (w : Disk.World D)
      → InDirectory catalog p
      → InDirectory catalog q
      → InDirectory catalog r
      → Names.entry N w p ≡ some i
      → Names.entry N w q ≡ none
      → Names.entry N (Disk.rename D p q w) r
        ≡ (if strcmp_eq r q then some i else if strcmp_eq r p then none else Names.entry N w r)
  pub close-entry :
      (fd : ℤ) (w : Disk.World D) → Names.entry N (Disk.close D fd w) ≡ Names.entry N w
  -- An opened file is the one that the path names, one that exists being left as it is.
  pub open-opened :
      (p : Bytes) (fd : ℤ) (w : Disk.World D)
      → (Disk.open_append D p w).0 ≡ some fd
      → (i : ℕ) × (Names.entry N (Disk.open_append D p w).1 p ≡ some i)
        × (Names.opened N (Disk.open_append D p w).1 fd ≡ some i)
  pub open-others :
      (p q : Bytes) (w : Disk.World D)
      → InDirectory catalog p
      → InDirectory catalog q
      → strcmp_eq q p ≡ false
      → Names.entry N (Disk.open_append D p w).1 q ≡ Names.entry N w q
