-- ===== src/Env/Running/Found.antt =====
-- A server that has written the file with its number is found by the next one.
use sqlbus.Prelude.{
  ℕ, ◌≡◌, true, false, Option, none, some, ◌++◌, Bytes, codes, ℤ, length, strcmp_eq, ◌<◌,
}
use sqlbus.Config.{Config}
use sqlbus.Disk.{Disk}
use sqlbus.Log.Decimal.{print_decimal}
use sqlbus.Env.{Host}
use sqlbus.Env.Running.{Lines}

-- The first line of each file, which looking at files does not change, and which is what was written
-- where a file was opened, written and closed.
pub record Paper (D : Disk) (H : Host D) (L : Lines D) : Type 0 where
  pub line : Disk.World D → Bytes → Option Bytes
  pub access_reply :
      (p s : Bytes) (w : Disk.World D) → line w p ≡ some s → (Host.access H p w).0 ≡ true
  pub access_line : (p q : Bytes) (w : Disk.World D) → line (Host.access H p w).1 q ≡ line w q
  pub read_reply :
      (mode p s : Bytes) (n : ℕ) (w : Disk.World D)
      → line w p ≡ some s
      → length s < n
      → (Lines.read_line L mode n p w).0 ≡ some s
  pub read_missing :
      (mode p : Bytes) (n : ℕ) (w : Disk.World D)
      → line w p ≡ none
      → (Lines.read_line L mode n p w).0 ≡ none
  pub read_kept :
      (mode p q : Bytes) (n : ℕ) (w : Disk.World D)
      → line (Lines.read_line L mode n p w).1 q ≡ line w q
  pub written :
      (p s : Bytes) (fd : ℤ) (w : Disk.World D)
      → (Host.open_truncate H p w).0 ≡ some fd
      → line (Disk.close D fd (Host.write H fd (s ++ codes "\n") (Host.open_truncate H p w).1)) p
        ≡ some (s ++ codes "\n")
  pub written_others :
      (p q s : Bytes) (fd : ℤ) (w : Disk.World D)
      → (Host.open_truncate H p w).0 ≡ some fd
      → strcmp_eq q p ≡ false
      → line (Disk.close D fd (Host.write H fd s (Host.open_truncate H p w).1)) q ≡ line w q

module _ (D : Disk) (H : Host D) (L : Lines D) (F : Paper D H L) where
  open F use {line}

  abbrev written_at : Bytes → ℤ → Disk.World D → Disk.World D
  written_at path fd w =
      let v = (Host.access H (Host.dirname H path) w).1 in
      Disk.close D fd (
        Host.write H fd (print_decimal (Host.getpid H) ++ codes "\n")
          (Host.open_truncate H path v).1)
