-- ===== src/Client/Serial/Writing.antt =====
-- The loop that writes to the serial device.
use auklet_client_c.Prelude.{
  ◌≡◌, ◌≢◌, refl, sym, ap, ◌∙◌, ◌⊎◌, inl, inr, String, Option, none, some, List, [], ◌∷◌, ◌++◌,
  Result, ok, err,
}
use mathlib.Core.Path.{subst}
use auklet_client_c.Fsutil.{FilePath, Fs, IsLawful}
use auklet_client_c.Broker.Message.{Message}
use auklet_client_c.Schema.Convert.{Codec}
use auklet_client_c.Client.Serial.{
  Line, Port, line_of, log_line, after_write, write_line, after_open, try_write, write_all,
}

module _ (X : Codec) (D : Fs Line) (addr : FilePath) where
  -- The device cannot be opened, or the message is no JSON, or its line cannot be written.
  pub data Fails (m : Message) (s : D.State) : Type 0 where
    unopened : (e : String) → (D.open_file s addr).1 ≡ some e → Fails m s
    unmade : (e : String) → line_of X m ≡ err e → Fails m s
    unwritten :
        (l : Line) (e : String)
        → line_of X m ≡ ok l
        → (D.write (D.open_file s addr).0 addr l).1 ≡ some e
        → Fails m s

  -- One message was tried: its line is what the file holds, and nothing is logged; or something
  -- failed, and one text is logged. The other files are as they were.
  pub record IsTried (m : Message) (p p' : Port D) : Type 0 where
    pub result :
        ((l : Line) × (line_of X m ≡ ok l)
          × (D.read_all p'.fs addr ≡ ok l)
          × (p'.logged ≡ p.logged))
        ⊎ (Fails m p.fs × ((e : String) × (p'.logged ≡ p.logged ++ (e ∷ []))))
    pub others : (q : FilePath) → addr ≢ q → D.read_all p'.fs q ≡ D.read_all p.fs q

  IsTried-log_line :
      (m : Message) (t : String) (s : D.State) (p : Port D)
      → Fails m p.fs
      → ((q : FilePath) → addr ≢ q → D.read_all s q ≡ D.read_all p.fs q)
      → IsTried m p (log_line X D addr t (record p { fs = s }))
  unfolding log_line
  IsTried-log_line m t s p fails same = record { result = inr (fails, (t, refl)); others = same }

  module _ (L : IsLawful D) where
    IsTried-after_write :
        (m : Message) (l : Line) (o : D.State × Option String) (p : Port D)
        → line_of X m ≡ ok l
        → D.write (D.open_file p.fs addr).0 addr l ≡ o
        → ((q : FilePath) → addr ≢ q → D.read_all o.0 q ≡ D.read_all p.fs q)
        → IsTried m p (after_write X D addr o (record p { fs = (D.open_file p.fs addr).0 }))
    unfolding after_write
    IsTried-after_write m l (s, none) p is_line e same = record {
      result = inl (l, is_line, L.read-write (D.open_file p.fs addr).0 s addr l e, refl);
      others = same;
    }
    IsTried-after_write m l (s, some e) p is_line h same =
        IsTried-log_line m _ s p (unwritten l e is_line (ap (λ o. o.1) h)) same

    IsTried-write_line :
        (m : Message) (r : Result Line) (p : Port D)
        → line_of X m ≡ r
        → ((q : FilePath) → addr ≢ q → D.read_all (D.open_file p.fs addr).0 q ≡ D.read_all p.fs q)
        → IsTried m p (write_line X D addr r (record p { fs = (D.open_file p.fs addr).0 }))
    unfolding write_line
    IsTried-write_line m (err e) p is_line same =
        IsTried-log_line m _ (D.open_file p.fs addr).0 p (unmade e is_line) same
    IsTried-write_line m (ok l) p is_line same =
        let s = (D.open_file p.fs addr).0 in
        IsTried-after_write m l (D.write s addr l) p is_line refl
          (λ q ne. L.read-write_other s addr q l ne ∙ same q ne)

    IsTried-after_open :
        (m : Message) (o : D.State × Option String) (p : Port D)
        → D.open_file p.fs addr ≡ o
        → ((q : FilePath) → addr ≢ q → D.read_all (D.open_file p.fs addr).0 q ≡ D.read_all p.fs q)
        → IsTried m p (after_open X D addr m o p)
    unfolding after_open
    IsTried-after_open m (s, some e) p opens same =
        IsTried-log_line m _ s p (unopened e (ap (λ o. o.1) opens))
          (λ q ne. ap (λ (o : D.State × Option String). D.read_all o.0 q) (sym opens) ∙ same q ne)
    IsTried-after_open m (s, none) p opens same =
        subst
          (λ (t : D.State). IsTried m p (write_line X D addr (line_of X m) (record p { fs = t })))
          (ap (λ (o : D.State × Option String). o.0) opens)
          (IsTried-write_line m (line_of X m) p refl same)

    try_write-IsTried : (m : Message) (p : Port D) → IsTried m p (try_write X D addr m p)
    unfolding try_write
    try_write-IsTried m p =
        IsTried-after_open m (D.open_file p.fs addr) p refl
          (λ q ne. L.read-open_file_other p.fs addr q ne)

    write_all-append :
        (ms more : List Message) (p : Port D)
        → write_all X D addr (ms ++ more) p ≡ write_all X D addr more (write_all X D addr ms p)
    unfolding write_all
    write_all-append [] more p = refl
    write_all-append (m ∷ ms) more p = write_all-append ms more (try_write X D addr m p)

    -- Every message of the stream is tried in its turn, whatever became of those before it. If the
    -- device cannot be opened, or the message is no JSON, or its line cannot be written, one text is
    -- logged, and the loop goes on; else nothing is logged, and the file then holds the message's
    -- line. No other file is touched.
    pub write_all-IsTried :
        (before : List Message) (m : Message) (after : List Message) (p : Port D)
        → let p1 = write_all X D addr before p in
          let p2 = try_write X D addr m p1 in
          IsTried m p1 p2
          × (write_all X D addr (before ++ (m ∷ after)) p ≡ write_all X D addr after p2)
    unfolding write_all
    write_all-IsTried before m after p =
        (try_write-IsTried m (write_all X D addr before p), write_all-append before (m ∷ after) p)
