-- ===== src/Merge/Progress.antt =====
-- How the goroutines of a merger can go on.
use auklet_client_c.Prelude.{
  ℕ, zero, suc, ◌≡◌, refl, ap, ◌∙◌, Bool, true, ◌&&◌, Option, none, some, List, [], ◌∷◌, ◌++◌,
  nat_eq, arith,
}
use auklet_client_c.Merge.{
  Merging, Move, receive, send, hand_over, finish, close, deliver, all_finished, merge, move, serve,
  received, handed, ended, taken,
}

all_finished_mono :
    (n : ℕ) (f g : ℕ → Bool)
    → ((i : ℕ) → f i ≡ true → g i ≡ true)
    → all_finished n f ≡ true
    → all_finished n g ≡ true
unfolding all_finished
all_finished_mono zero f g k h = refl
all_finished_mono (suc n) f g k h = ground (arith, all_finished_mono n f g k, k n)

module _ {A : Type 0} (n room : ℕ) where
  serve-append :
      (ms more : List Move) (s : Merging A)
      → serve n room (ms ++ more) s ≡ serve n room more (serve n room ms s)
  unfolding serve
  serve-append [] more s = refl
  serve-append (m ∷ ms) more s = serve-append ms more (move n room m s)

  finished-move :
      (m : Move) (s : Merging A) (i : ℕ) → s.finished i ≡ true → (move n room m s).finished i ≡ true
  unfolding move
  finished-move (receive j) s i h = ground arith
  finished-move (send j) s i h = ground arith
  finished-move (hand_over j) s i h = ground arith
  finished-move (finish j) s i h = ground arith
  finished-move close s i h = ground arith
  finished-move deliver s i h = ground arith

  finished-serve :
      (ms : List Move) (s : Merging A) (i : ℕ)
      → s.finished i ≡ true
      → (serve n room ms s).finished i ≡ true
  unfolding serve
  finished-serve [] s i h = h
  finished-serve (m ∷ ms) s i h = finished-serve ms (move n room m s) i (finished-move m s i h)

  queue-deliver :
      (x : ℕ × A) (q : List (ℕ × A)) (s : Merging A)
      → s.queue ≡ x ∷ q
      → (move n room deliver s).queue ≡ q
  unfolding move taken
  queue-deliver x q s h = rw h refl

  drain :
      (q : List (ℕ × A)) (s : Merging A)
      → s.queue ≡ q
      → (ms : List Move) × ((serve n room ms s).queue ≡ [])
  unfolding serve
  drain [] s h = ([], h)
  drain (x ∷ q) s h =
      let rest = drain q (move n room deliver s) (queue-deliver x q s h) in
      (deliver ∷ rest.0, rest.1)

  move-finish :
      (i : ℕ) (s : Merging A)
      → s.hand i ≡ none
      → s.remaining i ≡ []
      → ((move n room (finish i) s).queue ≡ s.queue)
        × ((move n room (finish i) s).finished i ≡ true)
  unfolding move ended
  move-finish i s h r = ground (arith, h, r)

  move-hand_over :
      (i : ℕ) (x : A) (s : Merging A)
      → s.queue ≡ []
      → s.hand i ≡ some x
      → let s' = move n room (hand_over i) s in
        (s'.queue ≡ []) × (s'.hand i ≡ none) × (s'.remaining i ≡ s.remaining i)
  unfolding move handed
  move-hand_over i x s q h = ground (arith, h, q)

  move-receive :
      (i : ℕ) (x : A) (xs : List A) (s : Merging A)
      → s.hand i ≡ none
      → s.remaining i ≡ x ∷ xs
      → let s' = move n room (receive i) s in
        (s'.queue ≡ s.queue) × (s'.hand i ≡ some x) × (s'.remaining i ≡ xs)
  unfolding move received
  move-receive i x xs s h r = ground (arith, h, r)

  -- With an empty buffer, a source whose goroutine holds nothing can be brought to its end.
  finish_source :
      (i : ℕ) (xs : List A) (s : Merging A)
      → s.queue ≡ []
      → s.hand i ≡ none
      → s.remaining i ≡ xs
      → (ms : List Move) × ((serve n room ms s).queue ≡ [])
        × ((serve n room ms s).finished i ≡ true)
  unfolding serve
  finish_source i [] s q h r = let e = move-finish i s h r in (finish i ∷ [], e.0 ∙ q, e.1)
  finish_source i (x ∷ xs) s q h r =
      let got = move-receive i x xs s h r in
      let s' = move n room (receive i) s in
      let gave = move-hand_over i x s' (got.0 ∙ q) got.1 in
      let rest = finish_source i xs (move n room (hand_over i) s') gave.0 gave.1 (gave.2 ∙ got.2) in
      (receive i ∷ hand_over i ∷ rest.0, rest.1, rest.2)

  finish_any :
      (i : ℕ) (o : Option A) (s : Merging A)
      → s.queue ≡ []
      → s.hand i ≡ o
      → (ms : List Move) × ((serve n room ms s).queue ≡ [])
        × ((serve n room ms s).finished i ≡ true)
  unfolding serve
  finish_any i none s q h = finish_source i (s.remaining i) s q h refl
  finish_any i (some x) s q h =
      let gave = move-hand_over i x s q h in
      let s' = move n room (hand_over i) s in
      let rest = finish_source i (s'.remaining i) s' gave.0 gave.1 refl in
      (hand_over i ∷ rest.0, rest.1, rest.2)

  finish_all :
      (k : ℕ) (s : Merging A)
      → s.queue ≡ []
      → (ms : List Move) × ((serve n room ms s).queue ≡ [])
        × (all_finished k (serve n room ms s).finished ≡ true)
  unfolding serve all_finished
  finish_all zero s q = ([], q, refl)
  finish_all (suc k) s q =
      let first = finish_all k s q in
      let s1 = serve n room first.0 s in
      let last = finish_any k (s1.hand k) s1 first.1 refl in
      let s2 = serve n room last.0 s1 in
      let kept = all_finished_mono k s1.finished s2.finished (finished-serve last.0 s1) first.2 in
      let both : (s2.finished k && all_finished k s2.finished) ≡ true = rw (last.2, kept) refl in
      (
        first.0 ++ last.0,
        ap (λ (t : Merging A). t.queue) (serve-append first.0 last.0 s) ∙ last.1,
        ap (λ (t : Merging A). t.finished k && all_finished k t.finished)
              (serve-append first.0 last.0 s)
            ∙ both,
      )

  move-close :
      (s : Merging A)
      → all_finished n s.finished ≡ true
      → ((move n room close s).queue ≡ s.queue) × ((move n room close s).closed ≡ true)
  unfolding move
  move-close s h = rw h (refl, refl)

  -- After any moves of the goroutines and the receiver, there are further moves after which the
  -- output is closed and its buffer empty.
  pub serve-closes :
      (streams : ℕ → List A) (ms : List Move)
      → (more : List Move) × ((serve n room (ms ++ more) (merge streams)).closed ≡ true)
        × ((serve n room (ms ++ more) (merge streams)).queue ≡ [])
  unfolding serve
  serve-closes streams ms =
      let s = serve n room ms (merge streams) in
      let drained = drain s.queue s refl in
      let s1 = serve n room drained.0 s in
      let all = finish_all n s1 drained.1 in
      let s2 = serve n room all.0 s1 in
      let end = move-close s2 all.2 in
      let path : serve n room (ms ++ (drained.0 ++ (all.0 ++ (close ∷ [])))) (merge streams)
          ≡ move n room close s2 =
        serve-append ms (drained.0 ++ (all.0 ++ (close ∷ []))) (merge streams)
        ∙ serve-append drained.0 (all.0 ++ (close ∷ [])) s
        ∙ serve-append all.0 (close ∷ []) s1 in
      (
        drained.0 ++ (all.0 ++ (close ∷ [])),
        ap (λ (t : Merging A). t.closed) path ∙ end.1,
        ap (λ (t : Merging A). t.queue) path ∙ end.0 ∙ all.1,
      )
