-- ===== src/Fsutil.antt =====
-- Filesystems as the program sees them through the library afero, and fsutil/writefile.go.
use auklet_client_c.Prelude.{
  ℕ, ◌≡◌, ◌≢◌, HasEq-discrete, String, Option, none, some, List, Result, ok, string_eq, nat_eq,
  arith,
}

-- The name of a file: `generated pid n` is the text "pid-n" of the process and a counter.
pub data Name : Type 0 where
  generated : ℕ → ℕ → Name
  named : String → Name

-- A directory, or a file "dir/name" in it.
pub data FilePath : Type 0 where
  dir : String → FilePath
  file : String → Name → FilePath

pub FilePath-discrete : Discrete FilePath
FilePath-discrete = hlevel (HasEq-discrete string_eq, HasEq-discrete nat_eq)

-- The calls that the program makes. `T` is what a file can hold. A call that changes the filesystem
-- returns it with the error, if there is one: `open_file` creates or empties a file for writing.
pub record Fs (T : Type 0) : Type 1 where
  pub State : Type 0
  pub stat : State → FilePath → Result ℕ
  pub open_dir : State → String → Option String
  pub read_dir_names : State → String → Result (List Name)
  pub read_all : State → FilePath → Result T
  pub mkdir_all : State → String → State × Option String
  pub open_file : State → FilePath → State × Option String
  pub write : State → FilePath → T → State × Option String
  pub remove : State → FilePath → State × Option String

-- What the program relies on: a written file reads as written, a removed file does not read, and the
-- other files are left alone.
pub record IsLawful {T : Type 0} (F : Fs T) : Type 0 where
  pub read-write :
      (s s' : F.State) (p : FilePath) (t : T) → F.write s p t ≡ (s', none) → F.read_all s' p ≡ ok t
  pub read-write_other :
      (s : F.State) (p q : FilePath) (t : T)
      → p ≢ q
      → F.read_all (F.write s p t).0 q ≡ F.read_all s q
  pub read-open_file_other :
      (s : F.State) (p q : FilePath) → p ≢ q → F.read_all (F.open_file s p).0 q ≡ F.read_all s q
  pub read-mkdir_all :
      (s : F.State) (d : String) (q : FilePath) → F.read_all (F.mkdir_all s d).0 q ≡ F.read_all s q
  pub read-remove :
      (s s' : F.State) (p : FilePath) (t : T) → F.remove s p ≡ (s', none) → F.read_all s' p ≢ ok t
  pub read-remove_other :
      (s : F.State) (p q : FilePath) → p ≢ q → F.read_all (F.remove s p).0 q ≡ F.read_all s q

module _ {T : Type 0} (F : Fs T) where
  write_opened : FilePath → T → F.State × Option String → F.State × Option String
  write_opened p t (s, none) = F.write s p t
  write_opened p t (s, some e) = (s, some e)

  -- `WriteFile`
  unfoldable pub write_file : F.State → FilePath → T → F.State × Option String
  unfolding write_opened
  write_file s p t = write_opened p t (F.open_file s p)

  pub read-write_file :
      IsLawful F
      → (s s' : F.State) (p : FilePath) (t : T) → write_file s p t ≡ (s', none)
      → F.read_all s' p ≡ ok t
  unfolding write_file
  read-write_file L s s' p t h = ground (arith, L.read-write (F.open_file s p).0 s' p t)

  pub read-write_file_other :
      IsLawful F
      → (s : F.State) (p q : FilePath) (t : T) → p ≢ q
      → F.read_all (write_file s p t).0 q ≡ F.read_all s q
  unfolding write_file
  read-write_file_other L s p q t ne =
      ground
        (arith, L.read-open_file_other s p q ne, L.read-write_other (F.open_file s p).0 p q t ne)
