-- ===== src/Merge/Streams.antt =====
-- What comes of the sources' streams in a merger, and the closing of the output.
use auklet_client_c.Prelude.{
  ℕ, zero, suc, ◌≤◌, ◌<◌, ◌≡◌, refl, sym, ◌∙◌, Bool, true, Option, none, some, List, [], ◌∷◌, ◌++◌,
  append-nil, append_assoc, length, length-append, ◌==◌, nat_eq, arith, if◌then◌else◌,
}
use native.Mathlib.Decide.{ℕ_discrete}
use auklet_client_c.Merge.{
  Merging, Move, receive, send, hand_over, finish, close, deliver, all_finished, update, merge,
  move, serve, received, sent, handed, ended, taken,
}

finished-below : (n i : ℕ) (f : ℕ → Bool) → all_finished n f ≡ true → i < n → f i ≡ true
unfolding all_finished
finished-below zero i f h k = elim k [ ]
finished-below (suc n) i f h k = elim (ℕ_discrete i n) [
  | yes e ↦ rw e (ground arith)
  | no e ↦ finished-below n i f (ground arith) (omega arith)
]

all_finished-update :
    (n i : ℕ) (f : ℕ → Bool) → all_finished n f ≡ true → all_finished n (update f i true) ≡ true
unfolding all_finished
all_finished-update zero i f h = refl
all_finished-update (suc n) i f h = ground (arith, all_finished-update n i f)

module _ {A : Type 0} where
  abbrev pub of_source : ℕ → List (ℕ × A) → List A
  of_source i [] = []
  of_source i ((j, x) ∷ l) = let rest = of_source i l in if i == j then x ∷ rest else rest

  of_source-append :
      (i : ℕ) (xs ys : List (ℕ × A)) → of_source i (xs ++ ys) ≡ of_source i xs ++ of_source i ys
  of_source-append i [] ys = refl
  of_source-append i ((j, x) ∷ xs) ys = ground (arith, of_source-append i xs ys)

  abbrev pub held : Option A → List A
  held none = []
  held (some x) = x ∷ []

  -- What has come of the stream of source `i`, and what is still to come.
  abbrev pub stream : ℕ → Merging A → List A
  stream i s =
      of_source i s.delivered ++ (of_source i s.queue ++ (held (s.hand i) ++ s.remaining i))

  -- The output never holds more than its room, a goroutine ends after its source's stream, and the
  -- output closes after all goroutines.
  pub record IsMerging (n room : ℕ) (streams : ℕ → List A) (s : Merging A) : Type 0 where
    pub kept : (i : ℕ) → stream i s ≡ streams i
    pub bounded : length s.queue ≤ room
    pub ends : (i : ℕ) → s.finished i ≡ true → (s.hand i ≡ none) × (s.remaining i ≡ [])
    pub last : s.closed ≡ true → all_finished n s.finished ≡ true

  stream-received :
      (i j : ℕ) (s : Merging A) → stream i (received j (s.hand j) (s.remaining j) s) ≡ stream i s
  unfolding received
  stream-received i j s = ground arith

  stream-sent :
      (room i j : ℕ) (o : Option A) (s : Merging A)
      → s.hand j ≡ o
      → stream i (sent room j o s) ≡ stream i s
  unfolding sent
  stream-sent room i j none s h = refl
  stream-sent room i j (some x) s h = ground (
    arith,
    of_source-append i s.queue ((j, x) ∷ []),
    append_assoc (of_source i s.queue) (x ∷ []) (s.remaining i),
    append-nil (of_source i s.queue),
  )

  stream-handed :
      (i j : ℕ) (o : Option A) (q : List (ℕ × A)) (s : Merging A)
      → s.hand j ≡ o
      → s.queue ≡ q
      → stream i (handed j o q s) ≡ stream i s
  unfolding handed
  stream-handed i j none q s h k = refl
  stream-handed i j (some x) (y ∷ q) s h k = refl
  stream-handed i j (some x) [] s h k = ground (
    arith,
    of_source-append i s.delivered ((j, x) ∷ []),
    append_assoc (of_source i s.delivered) (x ∷ []) (s.remaining i),
    append-nil (of_source i s.delivered),
  )

  stream-ended :
      (i j : ℕ) (s : Merging A) → stream i (ended j (s.hand j) (s.remaining j) s) ≡ stream i s
  unfolding ended
  stream-ended i j s = ground arith

  stream-taken :
      (i : ℕ) (q : List (ℕ × A)) (s : Merging A) → s.queue ≡ q → stream i (taken q s) ≡ stream i s
  unfolding taken
  stream-taken i [] s k = refl
  stream-taken i ((j, x) ∷ q) s k = ground (
    arith,
    of_source-append i s.delivered ((j, x) ∷ []),
    append_assoc (of_source i s.delivered) (x ∷ [])
        (of_source i q ++ (held (s.hand i) ++ s.remaining i)),
    append-nil (of_source i s.delivered),
  )

  stream-move : (n room i : ℕ) (m : Move) (s : Merging A) → stream i (move n room m s) ≡ stream i s
  unfolding move
  stream-move n room i (receive j) s = stream-received i j s
  stream-move n room i (send j) s = stream-sent room i j (s.hand j) s refl
  stream-move n room i (hand_over j) s = stream-handed i j (s.hand j) s.queue s refl refl
  stream-move n room i (finish j) s = stream-ended i j s
  stream-move n room i close s = ground arith
  stream-move n room i deliver s = stream-taken i s.queue s refl

  bounded-sent :
      (room j : ℕ) (o : Option A) (s : Merging A)
      → length s.queue ≤ room
      → length (sent room j o s).queue ≤ room
  unfolding sent
  bounded-sent room j none s h = h
  bounded-sent room j (some x) s h = ground (arith, length-append s.queue ((j, x) ∷ []))

  bounded-move :
      (n room : ℕ) (m : Move) (s : Merging A)
      → length s.queue ≤ room
      → length (move n room m s).queue ≤ room
  unfolding move
  bounded-move n room (receive j) s h = ground arith
  bounded-move n room (send j) s h = bounded-sent room j (s.hand j) s h
  bounded-move n room (hand_over j) s h = ground arith
  bounded-move n room (finish j) s h = ground arith
  bounded-move n room close s h = ground arith
  bounded-move n room deliver s h = ground arith

  ends-move :
      (n room i : ℕ) (m : Move) (s : Merging A)
      → (s.finished i ≡ true → (s.hand i ≡ none) × (s.remaining i ≡ []))
      → (move n room m s).finished i ≡ true
      → ((move n room m s).hand i ≡ none) × ((move n room m s).remaining i ≡ [])
  unfolding move
  ends-move n room i (receive j) s h f = ground arith
  ends-move n room i (send j) s h f = ground arith
  ends-move n room i (hand_over j) s h f = ground arith
  ends-move n room i (finish j) s h f = ground arith
  ends-move n room i close s h f = ground arith
  ends-move n room i deliver s h f = ground arith

  last-move :
      (n room : ℕ) (m : Move) (s : Merging A)
      → (s.closed ≡ true → all_finished n s.finished ≡ true)
      → (move n room m s).closed ≡ true
      → all_finished n (move n room m s).finished ≡ true
  unfolding move
  last-move n room (receive j) s h c = ground arith
  last-move n room (send j) s h c = ground arith
  last-move n room (hand_over j) s h c = ground arith
  last-move n room (finish j) s h c = ground (arith, all_finished-update n j s.finished)
  last-move n room close s h c = ground arith
  last-move n room deliver s h c = ground arith

  move-IsMerging :
      (n room : ℕ) (streams : ℕ → List A) (m : Move) (s : Merging A)
      → IsMerging n room streams s
      → IsMerging n room streams (move n room m s)
  move-IsMerging n room streams m s v = record {
    kept = λ i. stream-move n room i m s ∙ v.kept i;
    bounded = bounded-move n room m s v.bounded;
    ends = λ i. ends-move n room i m s (v.ends i);
    last = last-move n room m s v.last;
  }

  serve_from-IsMerging :
      (n room : ℕ) (streams : ℕ → List A) (ms : List Move) (s : Merging A)
      → IsMerging n room streams s
      → IsMerging n room streams (serve n room ms s)
  unfolding serve
  serve_from-IsMerging n room streams [] s v = v
  serve_from-IsMerging n room streams (m ∷ ms) s v =
      serve_from-IsMerging n room streams ms (move n room m s) (move-IsMerging n room streams m s v)

  -- Whatever the order of the goroutines' moves: of each source, what was delivered, what is in the
  -- output's buffer, in the goroutine's hand and still to come make up its stream, in this order;
  -- the buffer holds no more than its room; a goroutine ends after its stream; and the output is
  -- closed only after all goroutines have ended.
  pub serve-IsMerging :
      (n room : ℕ) (streams : ℕ → List A) (ms : List Move)
      → IsMerging n room streams (serve n room ms (merge streams))
  unfolding merge
  serve-IsMerging n room streams ms =
      serve_from-IsMerging n room streams ms (merge streams)
        (record { kept = λ i. refl; bounded = omega arith; ends = λ i h. cc; last = λ h. cc })

  stream_done :
      (i : ℕ) (s : Merging A)
      → s.queue ≡ []
      → s.hand i ≡ none
      → s.remaining i ≡ []
      → stream i s ≡ of_source i s.delivered
  stream_done i s q h r = ground (arith, q, h, r, append-nil (of_source i s.delivered))

  -- Once the output is closed and its buffer is empty, the receiver has got every message of each
  -- source, those of one source in their order.
  pub serve_complete :
      (n room : ℕ) (streams : ℕ → List A) (ms : List Move) (i : ℕ)
      → (serve n room ms (merge streams)).closed ≡ true
      → (serve n room ms (merge streams)).queue ≡ []
      → i < n
      → of_source i (serve n room ms (merge streams)).delivered ≡ streams i
  serve_complete n room streams ms i c q k =
      let s = serve n room ms (merge streams) in
      let v = serve-IsMerging n room streams ms in
      let e = v.ends i (finished-below n i s.finished (v.last c) k) in
      sym (stream_done i s q e.0 e.1) ∙ v.kept i
