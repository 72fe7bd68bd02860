-- ===== src/Server/Driver.antt =====
-- src/driver_loader.c: a driver is a shared object with the sixteen functions of the template.
pub mod Loads
use sqlbus.Prelude.{
  ℕ, zero, suc, ◌+◌, Bool, true, false, Option, none, some, List, [], ◌∷◌, Bytes, codes, Status,
  success, failure, if◌then◌else◌,
}
use sqlbus.Server.Platform.{Platform}
use sqlbus.Server.State.{Ptr, bad, null, live, Driver}

-- driver_func_template
abbrev pub driver_func_template : List Bytes
driver_func_template =
    codes "DBConnectInitialize"
    ∷ codes "DBConnect"
    ∷ codes "DBDisconnect"
    ∷ codes "DBStmtInitialize"
    ∷ codes "DBStmtFinalize"
    ∷ codes "DBExecute"
    ∷ codes "DBGetRowCount"
    ∷ codes "DBGetFieldCount"
    ∷ codes "DBGetFieldNameIdx"
    ∷ codes "DBGetFieldLengthIdx"
    ∷ codes "DBGetNextRow"
    ∷ codes "DBGetFieldValue"
    ∷ codes "DBGetFieldValueIdx"
    ∷ codes "DBGetErrorMessage"
    ∷ codes "DBGetConnectionStatus"
    ∷ codes "DBGetExecuteResultCode"
    ∷ []

module _ (P : Platform) where
  open P use {World, malloc, dlopen, dlsym}

  -- What a function leaves: its result, the driver, and the world.
  abbrev pub Loaded : Type 0
  Loaded = Status × Driver × World

  -- The loop over the template, with n entries behind it.
  unfoldable pub find_functions : List Bytes → ℕ → Driver → World → Loaded
  find_functions [] n d w = (success, record d { functions = live n }, w)
  find_functions (name ∷ names) n d w =
      let found = dlsym name w in
      let rest = find_functions names (n + 1) d found.1 in
      if found.0 then rest else (failure, record d { functions = live n }, found.1)

  -- The table is allocated, and its entries are looked up.
  unfoldable pub fill_functions : Driver → Bool × World → Loaded
  fill_functions d (true, w) = find_functions driver_func_template 0 d w
  fill_functions d (false, w) = (failure, record d { functions = null }, w)

  unfoldable pub with_handle : Driver → Bool × World → Loaded
  with_handle d (true, w) = fill_functions (record d { dl_handle = live tt }) (malloc w)
  with_handle d (false, w) = (failure, record d { dl_handle = null }, w)

  -- load_driver and open_driver, of a driver and a file that are not NULL; strdup does not fail.
  unfoldable pub load_driver : Bytes → Driver → World → Loaded
  load_driver file d w = with_handle (record d { driver_name = live file }) (dlopen file w)

-- unload_driver: the two xFree, and dlclose of a handle that is not NULL. None: an invalid pointer
-- is freed or closed.
unfoldable pub unload_driver : Driver → Option Driver
unload_driver d = elim d.driver_name [
  | bad ↦ none
  | null ↦ unload_functions d
  | live s ↦ unload_functions d
]
  where
    close : Driver → Option Driver
    close d = elim d.dl_handle [
      | bad ↦ none
      | null ↦ some (record d { driver_name = null; functions = null })
      | live u ↦ some (record d { driver_name = null; functions = null; dl_handle = bad })
    ]

    unload_functions : Driver → Option Driver
    unload_functions d = elim d.functions [ bad ↦ none | null ↦ close d | live n ↦ close d ]
