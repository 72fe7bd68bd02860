-- ===== src/Server/Driver/Loads.antt =====
-- What load_driver guarantees to the calls that go through the function table, and to unload_driver.
use sqlbus.Prelude.{
  ℕ, ◌+◌, ◌≡◌, refl, ap, Bool, true, false, none, some, List, [], ◌∷◌, Bytes, length, arith,
  success, failure, if◌then◌else◌,
}
use sqlbus.Server.Platform.{Platform}
use sqlbus.Server.State.{bad, null, live, Driver}
use sqlbus.Server.Driver.{
  driver_func_template, Loaded, find_functions, fill_functions, with_handle, load_driver,
  unload_driver,
}

module _ (P : Platform) where
  open P use {World, malloc, dlopen, dlsym}

  -- Of what a load leaves: on success the table has n entries, and the rest of the driver is as given.
  abbrev IsFilled : ℕ → Driver → Loaded P → Type 0
  IsFilled n d out = out.0 ≡ success → out.1 ≡ record d { functions = live n }

  IsFilled-if :
      (b : Bool) (n m : ℕ) (d : Driver) (w : World) (out : Loaded P)
      → IsFilled n d out
      → IsFilled n d (if b then out else (failure, record d { functions = live m }, w))
  IsFilled-if true n m d w out h = h
  IsFilled-if false n m d w out h = λ e. ground arith

  find_functions-IsFilled :
      (names : List Bytes) (n m : ℕ) (d : Driver) (w : World)
      → m ≡ length names + n
      → IsFilled m d (find_functions P names n d w)
  unfolding find_functions
  find_functions-IsFilled [] n m d w e =
      λ s. ap (λ k. record d { functions = live k }) (omega arith)
  find_functions-IsFilled (name ∷ names) n m d w e =
      IsFilled-if (dlsym name w).0 m n d (dlsym name w).1
        (find_functions P names (n + 1) d (dlsym name w).1)
        (find_functions-IsFilled names (n + 1) m d (dlsym name w).1 (omega arith))

  fill_functions-IsFilled : (d : Driver) (r : Bool × World) → IsFilled 16 d (fill_functions P d r)
  unfolding fill_functions
  fill_functions-IsFilled d (true, w) = find_functions-IsFilled driver_func_template 0 16 d w refl
  fill_functions-IsFilled d (false, w) = λ e. ground arith

  with_handle-IsFilled :
      (d : Driver) (r : Bool × World)
      → IsFilled 16 (record d { dl_handle = live tt }) (with_handle P d r)
  unfolding with_handle
  with_handle-IsFilled d (true, w) =
      fill_functions-IsFilled (record d { dl_handle = live tt }) (malloc w)
  with_handle-IsFilled d (false, w) = λ e. ground arith

  -- When load_driver succeeds, the shared object is open and all sixteen entries of the table have
  -- their address, so that no call through the table is of NULL; unload_driver then finds only
  -- pointers that can be released.
  pub load_driver-IsLoaded :
      (file : Bytes) (d : Driver) (w : World)
      → (load_driver P file d w).0 ≡ success
      → ((load_driver P file d w).1
          ≡ record d { driver_name = live file; functions = live 16; dl_handle = live tt })
        × (unload_driver (load_driver P file d w).1
            ≡ some (record d { driver_name = null; functions = null; dl_handle = bad }))
  unfolding load_driver unload_driver
  load_driver-IsLoaded file d w e = (loaded, rw loaded refl)
    where
      loaded :
          (load_driver P file d w).1
          ≡ record d { driver_name = live file; functions = live 16; dl_handle = live tt }
      loaded = with_handle-IsFilled (record d { driver_name = live file }) (dlopen file w) e

  -- When dlopen fails on a driver that was just allocated, unload_driver frees a function table that
  -- has never been set.
  pub unload_driver-never_loaded :
      (file : Bytes) (d : Driver) (w : World)
      → d.functions ≡ bad
      → (dlopen file w).0 ≡ false
      → ((load_driver P file d w).0 ≡ failure) × (unload_driver (load_driver P file d w).1 ≡ none)
  unfolding load_driver unload_driver with_handle
  unload_driver-never_loaded file d w fresh closed = refused (dlopen file w) closed
    where
      refused :
          (r : Bool × World)
          → r.0 ≡ false
          → ((with_handle P (record d { driver_name = live file }) r).0 ≡ failure)
            × (unload_driver (with_handle P (record d { driver_name = live file }) r).1 ≡ none)
      refused (true, w') e = ground arith
      refused (false, w') e = (refl, rw fresh refl)
