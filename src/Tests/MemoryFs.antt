-- ===== src/Tests/MemoryFs.antt =====
-- A filesystem in memory, which shows that the assumptions on filesystems can be met.
use auklet_client_c.Prelude.{
  ℕ, ◌≡◌, ◌≢◌, refl, ap, Bool, true, false, ◌&&◌, String, Option, none, some, List, [], ◌∷◌, Result,
  ok, err, ◌==◌, nat_eq, string_eq, eq_iff, arith, if◌then◌else◌,
}
use auklet_client_c.Fsutil.{Name, generated, named, FilePath, dir, file, Fs, IsLawful}

abbrev same_name : Name → Name → Bool
same_name (generated a b) (generated c d) = a == c && b == d
same_name (named s) (named t) = s == t
same_name _ _ = false

abbrev same_path : FilePath → FilePath → Bool
same_path (dir d) (dir e) = d == e
same_path (file d n) (file e m) = d == e && same_name n m
same_path _ _ = false

same_name_refl : (n : Name) → same_name n n ≡ true
same_name_refl (generated a b) = ground arith
same_name_refl (named s) = (eq_iff s s).1 refl

same_path_refl : (p : FilePath) → same_path p p ≡ true
same_path_refl (dir d) = (eq_iff d d).1 refl
same_path_refl (file d n) = ground (arith, eq_iff d d, same_name_refl n)

same_name_eq : (n m : Name) → same_name n m ≡ true → n ≡ m
same_name_eq (generated a b) (generated c d) h = ground arith
same_name_eq (named s) (named t) h = ap named ((eq_iff s t).0 h)
same_name_eq (generated a b) (named t) h = cc
same_name_eq (named s) (generated c d) h = cc

same_path_eq : (p q : FilePath) → same_path p q ≡ true → p ≡ q
same_path_eq (dir d) (dir e) h = ap dir ((eq_iff d e).0 h)
same_path_eq (file d n) (file e m) h = ground (arith, eq_iff d e, same_name_eq n m)
same_path_eq (dir d) (file e m) h = cc
same_path_eq (file d n) (dir e) h = cc

module _ {T : Type 0} where
  abbrev get : FilePath → List (FilePath × T) → Option T
  get p [] = none
  get p ((q, t) ∷ s) = if same_path p q then some t else get p s

  abbrev erase : FilePath → List (FilePath × T) → List (FilePath × T)
  erase p [] = []
  erase p ((q, t) ∷ s) = let rest = erase p s in if same_path p q then rest else (q, t) ∷ rest

  abbrev names : String → List (FilePath × T) → List Name
  names d [] = []
  names d ((dir e, t) ∷ s) = names d s
  names d ((file e n, t) ∷ s) = let rest = names d s in if d == e then n ∷ rest else rest

  get-erase_self : (p : FilePath) (s : List (FilePath × T)) → get p (erase p s) ≡ none
  get-erase_self p [] = refl
  get-erase_self p ((q, t) ∷ s) = ground (arith, get-erase_self p s)

  get-erase_other : (p q : FilePath) (s : List (FilePath × T)) → p ≢ q → get q (erase p s) ≡ get q s
  get-erase_other p q [] ne = refl
  get-erase_other p q ((r, t) ∷ s) ne =
      ground (arith, get-erase_other p q s ne, same_path_eq p r, same_path_eq q r, same_path_refl q)

  get-put_other :
      (p q : FilePath) (t : T) (s : List (FilePath × T))
      → p ≢ q
      → get q ((p, t) ∷ erase p s) ≡ get q s
  get-put_other p q t s ne = ground (arith, get-erase_other p q s ne, same_path_eq q p)

  abbrev read : Option T → Result T
  read none = err "file does not exist"
  read (some t) = ok t

  abbrev stat_file : (T → ℕ) → Option T → Result ℕ
  stat_file size_of none = err "file does not exist"
  stat_file size_of (some t) = ok (size_of t)

  abbrev stat_path : (T → ℕ) → List (FilePath × T) → FilePath → Result ℕ
  stat_path size_of s (dir d) = ok 0
  stat_path size_of s (file d n) = stat_file size_of (get (file d n) s)

  abbrev removed : Option T → FilePath → List (FilePath × T) → List (FilePath × T) × Option String
  removed none p s = (s, some "file does not exist")
  removed (some t) p s = (erase p s, none)

-- Files of values of `T`, the empty file holding `empty`.
abbrev pub memory_fs : {T : Type 0} → T → (T → ℕ) → Fs T
memory_fs {T} empty size_of = record {
  State = List (FilePath × T);
  stat = stat_path size_of;
  open_dir = λ s d. none;
  read_dir_names = λ s d. ok (names d s);
  read_all = λ s p. read (get p s);
  mkdir_all = λ s d. (s, none);
  open_file = λ s p. ((p, empty) ∷ erase p s, none);
  write = λ s p t. ((p, t) ∷ erase p s, none);
  remove = λ s p. removed (get p s) p s;
}

module _ {T : Type 0} (empty : T) (size_of : T → ℕ) where
  abbrev F : Fs T
  F = memory_fs empty size_of

  read-write :
      (s s' : List (FilePath × T)) (p : FilePath) (t : T)
      → F.write s p t ≡ (s', none)
      → F.read_all s' p ≡ ok t
  read-write s s' p t h =
      rw (← ap (λ (r : List (FilePath × T) × Option String). r.0) h) (rw (same_path_refl p) refl)

  read-removed :
      (o : Option T) (s s' : List (FilePath × T)) (p : FilePath) (t : T)
      → removed o p s ≡ (s', none)
      → read (get p s') ≢ ok t
  read-removed none s s' p t h e = cc
  read-removed (some u) s s' p t h e = ground (arith, get-erase_self p s)

  read-removed_other :
      (o : Option T) (s : List (FilePath × T)) (p q : FilePath)
      → p ≢ q
      → get q (removed o p s).0 ≡ get q s
  read-removed_other none s p q ne = refl
  read-removed_other (some t) s p q ne = get-erase_other p q s ne

  pub memory_fs-IsLawful : IsLawful F
  memory_fs-IsLawful = record {
    read-write = read-write;
    read-write_other = λ s p q t ne. ap read (get-put_other p q t s ne);
    read-open_file_other = λ s p q ne. ap read (get-put_other p q empty s ne);
    read-mkdir_all = λ s d q. refl;
    read-remove = λ s s' p t h. read-removed (get p s) s s' p t h;
    read-remove_other = λ s p q ne. ap read (read-removed_other (get p s) s p q ne);
  }
