-- ===== src/Broker/Store/Restart.antt =====
-- A program that is started again with the same process id, and the names of its files.
use auklet_client_c.Prelude.{◌≡◌, ◌≢◌, refl, sym, ap, ◌∙◌, ℕ, String, Option, none, some, List}
use auklet_client_c.Prelude.Int.{ℤ}
use auklet_client_c.Fsutil.{FilePath, Fs, IsLawful}
use auklet_client_c.Broker.Message.{Message}
use auklet_client_c.Broker.Store.{
  Text, Persistor, new_persistor, set_limit, create_message, load_message,
}
use auklet_client_c.Broker.Store.Create.{next_path, placed, created-placed, load-create}
use auklet_client_c.Broker.Store.Retention.{IsStored, create_all, create-IsStored}

-- The persistor of a program that has just started and got a limit, or none.
abbrev pub started : String → ℕ → Option ℤ → Persistor
started directory pid limit = set_limit limit (new_persistor directory pid)

module _ (F : Fs Text) (L : IsLawful F) where
  -- The filesystem after a message and then others were created.
  abbrev pub run_of : Persistor → Message → List Message → F.State → F.State
  run_of p m ms s =
      let first = create_message F p m s in (create_all F first.persistor ms first.fs).1

  next_path-started :
      (d : String) (pid : ℕ) (n n' : Option ℤ)
      → next_path F (started d pid n) ≡ next_path F (started d pid n')
  unfolding set_limit new_persistor
  next_path-started d pid n n' = refl

  placed_path : (p : Persistor) (x m : Message) → x ≡ placed F p m → x.path ≡ some (next_path F p)
  placed_path p x m e = ap (λ (y : Message). y.path) e

  placed_bytes : (p : Persistor) (x m : Message) → x ≡ placed F p m → x.bytes ≡ m.bytes
  placed_bytes p x m e = ap (λ (y : Message). y.bytes) e

  unstored :
      (s : F.State) (q : FilePath) (x y : Message)
      → x.path ≡ some q
      → load_message F s q ≡ y
      → x.bytes ≢ y.bytes
      → ¬ IsStored F s x
  unstored s q x y at there differ (r, at_r, is_x) = differ (
      ap (λ (z : Message). z.bytes)
        (sym is_x ∙ ap (load_message F s) (some_eq (sym at_r ∙ at)) ∙ there))
    where
      some_eq : {A : Type 0} {a b : A} → some a ≡ some b → a ≡ b
      some_eq h = cc

  -- On a lawful filesystem: a program that has just started stores a message, and others after it,
  -- and the message is held by its file. When the program starts again with the same directory and
  -- the same process id, the first message that it stores overwrites that file: unless the two have
  -- the same bytes, the old message is stored no more.
  pub restart-unstored :
      (d : String) (pid : ℕ) (n n' : Option ℤ) (old : Message) (ms : List Message) (new : Message)
      (s : F.State)
      → (create_message F (started d pid n) old s).error ≡ none
      → (create_message F (started d pid n') new (run_of (started d pid n) old ms s)).error ≡ none
      → old.bytes ≢ new.bytes
      → let first = create_message F (started d pid n) old s in
        let s1 = run_of (started d pid n) old ms s in
        let second = create_message F (started d pid n') new s1 in
        IsStored F s1 first.message × (¬ IsStored F second.fs first.message)
  restart-unstored d pid n n' old ms new s h k differ =
      let p = started d pid n in
      let q = started d pid n' in
      let first = create_message F p old s in
      let s1 = run_of p old ms s in
      let second = create_message F q new s1 in
      let first_placed = (created-placed F L p old s h).0 in
      let second_placed = (created-placed F L q new s1 k).0 in
      (
        create-IsStored F L old ms p s h,
        unstored second.fs (next_path F q) first.message second.message
            (placed_path p first.message old first_placed ∙ ap some (next_path-started d pid n n'))
            (load-create F L q new s1 k).0
            (λ e. differ (
              sym (placed_bytes p first.message old first_placed)
              ∙ e
              ∙ placed_bytes q second.message new second_placed)),
      )
