-- ===== src/App/Socketpair/Made.antt =====
-- What `socketpair` of app/socketpair.go returns, as the system made it.
use auklet_client_c.Prelude.{◌≡◌, refl, ◌<>◌, String, Option, none, some, Result, ok, err}
use auklet_client_c.Prelude.Int.{ℤ}
use auklet_client_c.App.Socketpair.{System, Pair, both, pair_of, new_pair}

module _ (S : System) where
  open S use {State, File, socketpair, new_file}

  -- Two sockets that the system, in that state, returned together, the first one as the local end.
  pub record IsPair (prefix : String) (s : State) (p : Pair S) : Type 0 where
    pub first : ℤ
    pub second : ℤ
    pub together : (socketpair s).1 ≡ ok (first, second)
    pub local_is : new_file first (prefix <> "-local") ≡ some p.local
    pub remote_is : new_file second (prefix <> "-remote") ≡ some p.remote

  both-ok :
      (l r : Option File) (p : Pair S)
      → both S l r ≡ ok p
      → (l ≡ some p.local) × (r ≡ some p.remote)
  unfolding both
  both-ok (some l) (some r) p h = (cc, cc)
  both-ok none r p h = cc
  both-ok (some l) none p h = cc

  pair_of-IsPair :
      (prefix : String) (s : State) (p : Pair S) (r : Result (ℤ × ℤ))
      → (socketpair s).1 ≡ r
      → pair_of S prefix r ≡ ok p
      → IsPair prefix s p
  unfolding pair_of
  pair_of-IsPair prefix s p (err e) made h = cc
  pair_of-IsPair prefix s p (ok (a, b)) made h =
      let files =
        both-ok (new_file a (prefix <> "-local")) (new_file b (prefix <> "-remote")) p h in
      record { first = a; second = b; together = made; local_is = files.0; remote_is = files.1 }

  pub new_pair-IsPair :
      (prefix : String) (s : State) (p : Pair S)
      → (new_pair S prefix s).1 ≡ ok p
      → IsPair prefix s p
  unfolding new_pair
  new_pair-IsPair prefix s p h = pair_of-IsPair prefix s p (socketpair s).1 refl h
