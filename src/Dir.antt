-- ===== src/Dir.antt =====
-- make_dir of src/util.c: the directories of a path, from the first one on.
use sqlbus.Prelude.{
  ℕ, Option, none, some, List, [], ◌∷◌, ◌++◌, Bytes, ℤ, pos, ◌==ℤ◌, ◌==◌, ltb, if◌then◌else◌, ◌||◌,
  length,
}
use sqlbus.Disk.{Disk}
use sqlbus.Server.Exec.{done, fault, Prog, ◌>>=◌, pure}

-- EINVAL and ENOENT
abbrev pub einval : ℤ
einval = pos 22

abbrev pub enoent : ℤ
enoent = pos 2

-- What strsep yields: the parts between the slashes, empty ones too
unfoldable pub components : Bytes → List Bytes
components [] = [] ∷ []
components (c ∷ s) =
    let rest = components s in
    if c == b'/' then [] ∷ rest else elim rest [ [] ↦ (c ∷ []) ∷ [] | p ∷ ps ↦ (c ∷ p) ∷ ps ]

module _ (D : Disk) where
  open D use {World, errno, stat, mkdir, chmod}

  -- One directory: it is made where stat does not find it; any other failure of stat is passed
  -- over. The result is what make_dir returns early.
  unfoldable pub make_one : Bytes → ℕ → Prog World (Option ℤ)
  make_one rec mode w =
      let found = stat rec w in
      let made = mkdir rec mode found.1 in
      elim (found.0) [
        | some s ↦ done none found.1
        | none ↦
            if errno found.1 ==ℤ enoent
            then (if made.0 then done none made.1 else done (some (errno made.1)) made.1)
            else done none found.1
      ]

  abbrev pub unless_returned : Option ℤ → Prog World (Option ℤ) → Prog World (Option ℤ)
  unless_returned (some e) next = pure (some e)
  unless_returned none next = next

  -- The loop, with the path so far in the array rec
  unfoldable pub make_dirs : Bytes → List Bytes → ℕ → Prog World (Option ℤ)
  make_dirs rec [] mode = pure none
  make_dirs rec (ptr ∷ rest) mode =
      let longer = rec ++ ptr ++ (b'/' ∷ []) in
      let next = make_dirs longer rest mode in
      if ltb (length longer) 512
      then (make_one longer mode >>= λ returned. unless_returned returned next)
      else (λ w. fault)

  abbrev finish : Bytes → ℕ → Option ℤ → Prog World ℤ
  finish path mode (some e) w = done e w
  finish path mode none w = done (pos 0) (chmod path mode w)

  -- make_dir, of a path that is not NULL
  unfoldable pub make_dir : Bytes → ℕ → Prog World ℤ
  make_dir [] mode = pure einval
  make_dir (c ∷ path) mode =
      if ltb mode 7 || ltb 511 mode
      then pure einval
      else make_dirs [] (components (c ∷ path)) mode >>= finish (c ∷ path) mode
