-- ===== src/Message/Limiter/Recovery.antt =====
-- What a restart finds: the limiter's exported fields as the last run left them.
use auklet_client_c.Prelude.{◌≡◌, refl, ◌⊎◌, true, false, none, some, List, [], ◌∷◌, arith}
use auklet_client_c.Prelude.Int.{pos}
use auklet_client_c.Prelude.Int64.{add64}
use auklet_client_c.Broker.Message.{size_of}
use auklet_client_c.Message.Persistor.{Persistor, Doc}
use auklet_client_c.Message.Persistor.FilePersistor.{File, save, load}
use auklet_client_c.Message.Limiter.State.{
  DataLimiter, State, initial, under_budget, encode, decode, ensure_future, set_budget,
  day_this_month,
}
use auklet_client_c.Message.Limiter.Run.{
  Event, expired, received, configured, serve_from, serve, step, settle, new_data_limiter,
}

-- What the limiter relies on: every save works, and what was saved last is what is loaded.
pub record IsReliable (P : Persistor) : Type 0 where
  pub saves : (s : P.State) (d : Doc) → (P.save s d).1 ≡ true
  pub loads : (s : P.State) (d : Doc) → P.load (P.save s d).0 ≡ some d

-- A file, as long as every call works, loads what was saved.
pub load-save : (f : File) (d : Doc) → (save f d).1 ≡ true → load (save f d).0 ≡ some d
unfolding save load
load-save f d h = ground arith

-- A save that fails leaves the file as it was or leaves nothing to load.
pub load-save_failed :
    (f : File) (d : Doc)
    → (save f d).1 ≡ false
    → (load (save f d).0 ≡ load f) ⊎ (load (save f d).0 ≡ none)
unfolding save load
load-save_failed f d h = ground arith

module _ (P : Persistor) where
  -- The store holds the exported fields.
  abbrev pub IsStored : DataLimiter P.State → Type 0
  IsStored l = P.load l.store ≡ some (encode l)

  -- A limiter has the budget, or the lack of one, the count and the end of the period of another.
  pub record IsRestored (new old : DataLimiter P.State) : Type 0 where
    pub same_budget : new.budget ≡ old.budget
    pub same_has : new.has_budget ≡ old.has_budget
    pub same_count : new.count ≡ old.count
    pub same_period : new.period_end ≡ old.period_end

  step-IsStored :
      IsReliable P
      → (e : Event) (s : State) (l : DataLimiter P.State) → IsStored l
      → IsStored (step P e s l).1
  unfolding step encode
  step-IsStored R (received m) under_budget l h =
      ground
        (arith, R.loads l.store (encode (record l { count = add64 l.count (pos (size_of m)) })))
  step-IsStored R (expired now) s l h = ground (
    arith,
    R.loads l.store
        (encode (record l { count = pos 0; period_end = ensure_future l.period_end now })),
  )
  step-IsStored R (configured c now) s l h = ground (
    arith,
    R.loads l.store (
        encode (record (set_budget c.limit c.defined l) {
          count = pos 0;
          period_end = ensure_future (day_this_month c.date now) now;
        })),
  )
  step-IsStored R e s l h = ground arith

  serve_from-IsStored :
      IsReliable P
      → (es : List Event) (s : State) (l : DataLimiter P.State) → IsStored l
      → IsStored (serve_from P es s l).1
  unfolding serve_from
  serve_from-IsStored R [] s l h = h
  serve_from-IsStored R (e ∷ es) s l h =
      serve_from-IsStored R es (step P e s l).0 (step P e s l).1 (step-IsStored R e s l h)

  settle-IsStored : (l : DataLimiter P.State) → IsStored l → IsStored (settle P initial l).1
  unfolding settle encode
  settle-IsStored l h = h

  restart_fields :
      (l : DataLimiter P.State) → IsStored l → IsRestored (new_data_limiter P l.store) l
  unfolding new_data_limiter encode decode
  restart_fields l h =
      rw h (record { same_budget = refl; same_has = refl; same_count = refl; same_period = refl })

  -- With a store that works, a limiter that starts after any run begins with the budget, or the lack
  -- of one, the count and the end of the period that the run ended with, if the run began with what
  -- is stored.
  pub restart-serve :
      IsReliable P
      → (es : List Event) (l : DataLimiter P.State) → IsStored l
      → let r = (serve P es l).1 in IsRestored (new_data_limiter P r.store) r
  unfolding serve
  restart-serve R es l h = restart_fields _ (serve_from-IsStored R es _ _ (settle-IsStored l h))
