-- ===== src/Tests/Broker.antt =====
-- The message store and the producer over a filesystem in memory.
use auklet_client_c.Prelude.{
  ℕ, suc, ◌+◌, ◌*◌, ◌/◌, ◌≤◌, ◌<◌, ◌≡◌, refl, sym, ◌⊎◌, inr, true, false, String, Option, none,
  some, List, [], ◌∷◌, ok, string_eq, arith, replicate,
}
use auklet_client_c.Prelude.Int.{pos, ◌+ℤ◌, ◌*ℤ◌}
use auklet_client_c.Prelude.Int64.{add64, mul64, quot64}
use auklet_client_c.Prelude.Decimal.{decimal}
use auklet_client_c.Fsutil.{Name, generated, named, file, write_file}
use auklet_client_c.Broker.Message.{Message, event}
use auklet_client_c.Broker.Store.{
  malformed, storage_full, error_text, create_message, load_message, load, size, exceeds, filepaths,
  remove, size_loop, save, remove_path,
}
use auklet_client_c.Broker.Store.Create.{placed, create_message-limit}
use auklet_client_c.Broker.Store.{set_limit, new_persistor}
use auklet_client_c.Broker.Store.Restart.{started, run_of, restart-unstored}
use auklet_client_c.Broker.Store.Retention.{IsStored}
use auklet_client_c.Broker.Store.Retention.{
  create_all, keep_stored, AllStored, create_all-AllStored,
}
use auklet_client_c.Broker.Mqtt.{Client, World, serve, publish_all, publish}
use mathlib.Core.List.{Memᴰ}
use mathlib.Core.List.Memᴰ.{head}
use mathlib.Core.Path.{subst}
use auklet_client_c.Broker.Mqtt.Kept.{load-serve, load-reloads}
use auklet_client_c.Broker.Mqtt.Delivery.{published}
use auklet_client_c.Tests.Disk.{disk, disk-IsLawful, persistor, two_files}

abbrev of_size : ℕ → Message
of_size n = record { error = ""; topic = event; bytes = replicate n 0; path = none; has_fs = false }

size_test : size disk two_files "d" ≡ (pos 20, none)
unfolding size filepaths size_loop add64 ◌+ℤ◌
size_test = refl

error_text_test :
    error_text (storage_full (pos 50) (pos 20)) ≡ "persistor: storage full: 20 used of 50 limit"
unfolding error_text decimal
error_text_test = refl

create_message-limit_example :
    let r = create_message disk persistor (of_size 26) two_files in
    ((9 * 50 / 10 < 26 + 20)
      × (r.error ≡ some (storage_full (pos 50) (pos 20)))
      × (r.fs ≡ two_files)
      × (r.persistor ≡ persistor)
      × (r.message ≡ of_size 26))
    ⊎ ((26 + 20 ≤ 9 * 50 / 10)
        × (r.persistor ≡ record persistor { count = 4 })
        × (r.message ≡ placed disk persistor (of_size 26)))
create_message-limit_example =
    create_message-limit disk 50 20 persistor (of_size 26) two_files refl size_test (omega arith)
      (omega arith)

created : (create_message disk persistor (of_size 4) two_files).error ≡ none
unfolding create_message size filepaths size_loop add64 ◌+ℤ◌ exceeds mul64 quot64 ◌*ℤ◌ save
    write_file
created = refl

abbrev row : List Message
row = of_size 4 ∷ of_size 40 ∷ of_size 5 ∷ []

create_all-AllStored_example :
    AllStored disk
      (create_all disk persistor row two_files).1
      (create_all disk persistor row two_files).0
create_all-AllStored_example = create_all-AllStored disk disk-IsLawful row persistor two_files

-- A broker that refuses empty messages.
abbrev answer : List ℕ → Option String
answer [] = some "empty"
answer (_ ∷ _) = none

abbrev picky : Client
picky = record {
  State = ℕ;
  connect = λ c. (c, none);
  publish = λ c topic bytes. (suc c, answer bytes);
  disconnect = λ c. 0;
}

abbrev at : ℕ → Name → Message
at n name = record (of_size n) { path = some (file "d" name); has_fs = true }

abbrev world : World picky disk
world = record { client = 5; fs = two_files; logged = [] }

-- What was published is gone, and the other message is still there.
serve_test :
    (serve picky disk
      (record { org = "o"; id = "i" })
      (at 2 (generated 6 0) ∷ at 0 (named "x") ∷ [])
      world)
    ≡ record {
      client = 0;
      fs = (file "d" (named "x"), malformed "no") ∷ [];
      logged = "publishing to broker:empty" ∷ [];
    }
unfolding serve publish_all publish remove remove_path
serve_test = refl

abbrev stored_at : ℕ → ℕ → Message
stored_at n count = record (of_size n) { path = some (file "d" (generated 7 count)); has_fs = true }

pair_test :
    (create_all disk persistor (of_size 0 ∷ of_size 4 ∷ []) two_files).0
    ≡ stored_at 0 3 ∷ stored_at 4 4 ∷ []
unfolding create_all create_message size filepaths size_loop add64 ◌+ℤ◌ exceeds mul64 quot64 ◌*ℤ◌
    save write_file keep_stored
pair_test = refl

load-serve_example :
    let r = create_all disk persistor (of_size 0 ∷ of_size 4 ∷ []) two_files in
    let w : World picky disk = record { client = 5; fs = r.1; logged = [] } in
    load_message disk
      (serve picky disk (record { org = "o"; id = "i" }) (stored_at 4 4 ∷ stored_at 0 3 ∷ []) w).fs
      (file "d" (generated 7 3))
    ≡ stored_at 0 3
unfolding published
load-serve_example =
    load-serve disk disk-IsLawful picky 5 (record { org = "o"; id = "i" }) [] persistor
      (of_size 0 ∷ of_size 4 ∷ []) two_files (stored_at 4 4 ∷ stored_at 0 3 ∷ []) (stored_at 0 3)
      (file "d" (generated 7 3)) (subst (λ l. Memᴰ (stored_at 0 3) l) (sym pair_test) (head refl))
      refl (inr (λ e. cc), tt)

listed :
    let r = create_all disk persistor (of_size 0 ∷ of_size 4 ∷ []) two_files in
    let w : World picky disk = record { client = 5; fs = r.1; logged = [] } in
    filepaths disk
      (serve picky disk (record { org = "o"; id = "i" }) (stored_at 4 4 ∷ stored_at 0 3 ∷ []) w).fs
      "d"
    ≡ ok (file "d" (generated 7 3) ∷ file "d" (generated 6 0) ∷ file "d" (named "x") ∷ [])
unfolding create_all create_message size filepaths size_loop add64 ◌+ℤ◌ exceeds mul64 quot64 ◌*ℤ◌
    save write_file keep_stored serve publish_all publish remove remove_path
listed = refl

load-reloads_example :
    let r = create_all disk persistor (of_size 0 ∷ of_size 4 ∷ []) two_files in
    let w : World picky disk = record { client = 5; fs = r.1; logged = [] } in
    Memᴰ (stored_at 0 3) (
      load disk
        (serve picky disk
          (record { org = "o"; id = "i" })
          (stored_at 4 4 ∷ stored_at 0 3 ∷ [])
          w).fs
        "d")
unfolding published
load-reloads_example =
    load-reloads disk disk-IsLawful picky 5 (record { org = "o"; id = "i" }) [] persistor
      (of_size 0 ∷ of_size 4 ∷ []) two_files (stored_at 4 4 ∷ stored_at 0 3 ∷ []) (stored_at 0 3)
      (file "d" (generated 7 3)) "d"
      (file "d" (generated 7 3) ∷ file "d" (generated 6 0) ∷ file "d" (named "x") ∷ [])
      (subst (λ l. Memᴰ (stored_at 0 3) l) (sym pair_test) (head refl)) refl (inr (λ e. cc), tt)
      listed (head refl)

first_created : (create_message disk (started "d" 7 none) (of_size 4) two_files).error ≡ none
unfolding create_message size filepaths size_loop add64 ◌+ℤ◌ save write_file set_limit new_persistor
first_created = refl

second_created :
    (create_message disk
      (started "d" 7 none)
      (of_size 5)
      (run_of disk disk-IsLawful (started "d" 7 none) (of_size 4) (of_size 1 ∷ []) two_files)).error
    ≡ none
unfolding create_message size filepaths size_loop add64 ◌+ℤ◌ save write_file set_limit new_persistor
    create_all
second_created = refl

restart-unstored_example :
    let first = create_message disk (started "d" 7 none) (of_size 4) two_files in
    let s1 =
      run_of disk disk-IsLawful (started "d" 7 none) (of_size 4) (of_size 1 ∷ []) two_files in
    let second = create_message disk (started "d" 7 none) (of_size 5) s1 in
    IsStored disk s1 first.message × (¬ IsStored disk second.fs first.message)
restart-unstored_example =
    restart-unstored disk disk-IsLawful "d" 7 none none (of_size 4) (of_size 1 ∷ []) (of_size 5)
      two_files first_created second_created (λ e. cc)
