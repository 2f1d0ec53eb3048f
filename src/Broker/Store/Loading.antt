-- ===== src/Broker/Store/Loading.antt =====
-- What the loader gives for the files of a directory.
use auklet_client_c.Prelude.{◌≡◌, ap, String, List, [], ◌∷◌, map, ok}
use mathlib.Core.List.{Memᴰ}
use mathlib.Core.List.Memᴰ.{head, tail}
use auklet_client_c.Fsutil.{FilePath, Fs}
use auklet_client_c.Broker.Store.{Text, filepaths, load_message, load_result, load}

map-Mem : {A B : Type 0} (f : A → B) (a : A) (l : List A) → Memᴰ a l → Memᴰ (f a) (map f l)
map-Mem f a [] e = elim e [ ]
map-Mem f a (x ∷ xs) (head e) = head (ap f e)
map-Mem f a (x ∷ xs) (tail e) = tail (map-Mem f a xs e)

module _ (F : Fs Text) where
  pub load-Mem :
      (s : F.State) (d : String) (paths : List FilePath) (q : FilePath)
      → filepaths F s d ≡ ok paths
      → Memᴰ q paths
      → Memᴰ (load_message F s q) (load F s d)
  unfolding load load_result
  load-Mem s d paths q listed e = rw listed (map-Mem (load_message F s) q paths e)
