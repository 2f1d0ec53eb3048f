-- ===== src/Message/Limiter/Budget.antt =====
-- The budget of a period: what `handleMessage` and `underBudget` let through, against the plain
-- arithmetic of what a budget allows.
use auklet_client_c.Prelude.{
  ℕ, ◌+◌, ◌*◌, ◌/◌, ◌≤◌, ◌<◌, ◌≡◌, refl, sym, ap, ◌∙◌, true, List, [], ◌∷◌, ◌++◌, map, append-nil,
  append_assoc, arith, inl, inr, ltb, if◌then◌else◌, max, ◌⊎◌,
}
use native.Mathlib.Decide.{dec_lt}
use mathlib.Core.Path.{subst, subst₂}
use auklet_client_c.Prelude.Int.{pos}
use auklet_client_c.Prelude.Int64.{two_63, quot64, add64-pos, mul64-pos}
use auklet_client_c.Broker.Message.{Message, size_of}
use auklet_client_c.Message.Persistor.{Persistor}
use auklet_client_c.Message.Limiter.State.{
  DataLimiter, State, under_budget, over_budget, over_threshold,
}
use auklet_client_c.Message.Limiter.Run.{received, serve_from, step}

abbrev pub total_bytes : List Message → ℕ
total_bytes [] = 0
total_bytes (m ∷ ms) = size_of m + total_bytes ms

pub total_bytes-append :
    (xs ys : List Message) → total_bytes (xs ++ ys) ≡ total_bytes xs + total_bytes ys
total_bytes-append [] ys = omega arith
total_bytes-append (x ∷ xs) ys = omega (arith, total_bytes-append xs ys)

-- What a budget of `b` bytes lets through of the messages, `c` bytes of it being spent: messages as
-- long as they stay within nine tenths, and one more if it stays within the budget.
unfoldable pub admit : ℕ → ℕ → List Message → List Message
admit b c [] = []
admit b c (m ∷ ms) =
    let rest = m ∷ admit b (size_of m + c) ms in
    if ltb b (size_of m + c) then [] else if ltb (9 * b / 10) (size_of m + c) then m ∷ [] else rest

pub admit_stop :
    (b c : ℕ) (m : Message) (ms : List Message) → b < size_of m + c → admit b c (m ∷ ms) ≡ []
unfolding admit
admit_stop b c m ms h = ground arith

pub admit_last :
    (b c : ℕ) (m : Message) (ms : List Message)
    → size_of m + c ≤ b
    → 9 * b / 10 < size_of m + c
    → admit b c (m ∷ ms) ≡ m ∷ []
unfolding admit
admit_last b c m ms h k = ground arith

pub admit_more :
    (b c : ℕ) (m : Message) (ms : List Message)
    → size_of m + c ≤ 9 * b / 10
    → admit b c (m ∷ ms) ≡ m ∷ admit b (size_of m + c) ms
unfolding admit
admit_more b c m ms h = ground arith

pub admit-within : (b c : ℕ) (ms : List Message) → total_bytes (admit b c ms) + c ≤ max b c
unfolding admit
admit-within b c [] = omega arith
admit-within b c (m ∷ ms) = ground (arith, admit-within b (size_of m + c) ms)

pub over_threshold-pos :
    (n b : ℕ) → 9 * b < two_63 → over_threshold (pos n) (pos b) ≡ ltb (9 * b / 10) n
unfolding over_threshold quot64
over_threshold-pos n b h = rw (mul64-pos 9 b h) (ground arith)

-- A limiter with a budget of `b` bytes of which `c` are spent.
pub record Budgeted {S : Type 0} (l : DataLimiter S) (b c : ℕ) : Type 0 where
  pub has : l.has_budget ≡ true
  pub budget_is : l.budget ≡ pos b
  pub count_is : l.count ≡ pos c

module _ (P : Persistor) where
  pub over_state_drops :
      (ms : List Message) (l : DataLimiter P.State)
      → serve_from P (map received ms) over_budget l ≡ (over_budget, l)
  unfolding serve_from step
  over_state_drops [] l = refl
  over_state_drops (m ∷ ms) l = over_state_drops ms l

  module _ (b c : ℕ) (m : Message) (l : DataLimiter P.State) (k : Budgeted l b c)
      (small : 9 * b < two_63) (fits : size_of m + c < two_63) where
    pub step_stop : b < size_of m + c → step P (received m) under_budget l ≡ (over_budget, l)
    unfolding step
    step_stop over = ground (arith, k.has, k.budget_is, k.count_is, add64-pos (size_of m) c)

    pub step_last :
        size_of m + c ≤ b
        → 9 * b / 10 < size_of m + c
        → let r = step P (received m) under_budget l in
          (r.0 ≡ over_budget) × (r.1.out ≡ l.out ++ (m ∷ [])) × Budgeted r.1 b (size_of m + c)
    unfolding step
    step_last within over = ground (
      arith,
      k.has,
      k.budget_is,
      k.count_is,
      add64-pos (size_of m) c,
      over_threshold-pos (size_of m + c) b,
      add64-pos c (size_of m),
    )

    pub step_more :
        size_of m + c ≤ b
        → size_of m + c ≤ 9 * b / 10
        → let r = step P (received m) under_budget l in
          ((r.0 ≡ under_budget) ⊎ (r.0 ≡ over_budget))
          × (r.1.out ≡ l.out ++ (m ∷ []))
          × Budgeted r.1 b (size_of m + c)
    unfolding step
    step_more within below = ground (
      arith,
      k.has,
      k.budget_is,
      k.count_is,
      add64-pos (size_of m) c,
      over_threshold-pos (size_of m + c) b,
      add64-pos c (size_of m),
    )

  -- What was sent is the first part of the messages `all`, and it was counted from `c` on.
  pub record SentPart (b c : ℕ) (all : List Message) (l r : DataLimiter P.State) : Type 0 where
    pub sent : List Message
    pub rest : List Message
    pub split : all ≡ sent ++ rest
    pub out_is : r.out ≡ l.out ++ sent
    pub counted : Budgeted r b (total_bytes sent + c)

  pub SentPart-none :
      (b c : ℕ) (all : List Message) (l : DataLimiter P.State)
      → Budgeted l b c
      → SentPart b c all l l
  SentPart-none b c all l k = record {
    sent = [];
    rest = all;
    split = refl;
    out_is = sym (append-nil l.out);
    counted = record {
      has = k.has;
      budget_is = k.budget_is;
      count_is = k.count_is ∙ ap pos (omega arith);
    };
  }

  SentPart-cons :
      (b c : ℕ) (m : Message) (all : List Message) (l l' r : DataLimiter P.State)
      → l'.out ≡ l.out ++ (m ∷ [])
      → SentPart b (size_of m + c) all l' r
      → SentPart b c (m ∷ all) l r
  SentPart-cons b c m all l l' r e p = record {
    sent = m ∷ p.sent;
    rest = p.rest;
    split = ap (λ t. m ∷ t) p.split;
    out_is = p.out_is ∙ rw e (append_assoc l.out (m ∷ []) p.sent);
    counted = record {
      has = p.counted.has;
      budget_is = p.counted.budget_is;
      count_is = p.counted.count_is ∙ ap pos (omega arith);
    };
  }

  -- In `overBudget` nothing more is sent.
  pub serve_over :
      (ms : List Message) (s : State) (l : DataLimiter P.State)
      → s ≡ over_budget
      → serve_from P (map received ms) s l ≡ (over_budget, l)
  serve_over ms s l e =
      subst (λ t. serve_from P (map received ms) t l ≡ (over_budget, l)) (sym e)
        (over_state_drops ms l)

  after_last :
      (b c : ℕ) (m : Message) (ms : List Message) (l : DataLimiter P.State)
      (r : State × DataLimiter P.State)
      → (r.0 ≡ over_budget) × (r.1.out ≡ l.out ++ (m ∷ [])) × Budgeted r.1 b (size_of m + c)
      → SentPart b c (m ∷ []) l (serve_from P (map received ms) r.0 r.1).1
  after_last b c m ms l r (over, sent, k) = SentPart-cons b c m [] l r.1 _ sent (
      subst (λ (q : State × DataLimiter P.State). SentPart b (size_of m + c) [] r.1 q.1)
        (sym (serve_over ms r.0 r.1 over)) (SentPart-none b (size_of m + c) [] r.1 k))

  -- After a message within nine tenths, it goes on as before, or stops since the count was not
  -- saved.
  after_more :
      (b c : ℕ) (m : Message) (ms all : List Message) (l : DataLimiter P.State)
      (r : State × DataLimiter P.State)
      → ((r.0 ≡ under_budget) ⊎ (r.0 ≡ over_budget))
        × (r.1.out ≡ l.out ++ (m ∷ []))
        × Budgeted r.1 b (size_of m + c)
      → SentPart b (size_of m + c) all r.1 (serve_from P (map received ms) under_budget r.1).1
      → SentPart b c (m ∷ all) l (serve_from P (map received ms) r.0 r.1).1
  after_more b c m ms all l r (inl under, sent, k) go = SentPart-cons b c m all l r.1 _ sent (
      subst (λ s. SentPart b (size_of m + c) all r.1 (serve_from P (map received ms) s r.1).1)
        (sym under) go)
  after_more b c m ms all l r (inr over, sent, k) go = SentPart-cons b c m all l r.1 _ sent (
      subst (λ (q : State × DataLimiter P.State). SentPart b (size_of m + c) all r.1 q.1)
        (sym (serve_over ms r.0 r.1 over)) (SentPart-none b (size_of m + c) all r.1 k))

  pub serve-SentPart :
      (b : ℕ) (small : 9 * b < two_63) (ms : List Message) (c : ℕ) (l : DataLimiter P.State)
      → Budgeted l b c
      → total_bytes ms + c < two_63
      → SentPart b c (admit b c ms) l (serve_from P (map received ms) under_budget l).1
  unfolding serve_from
  serve-SentPart b small [] c l k fits = unfold admit in SentPart-none b c [] l k
  serve-SentPart b small (m ∷ ms) c l k fits = elim (dec_lt b (size_of m + c)) [
    | yes over ↦
        let stop = step_stop b c m l k small (omega arith) over in
        subst₂ (λ a (r : State × DataLimiter P.State). SentPart b c a l r.1)
          (sym (admit_stop b c m ms over))
          (sym (
            ap (λ (r : State × DataLimiter P.State). serve_from P (map received ms) r.0 r.1) stop
            ∙ over_state_drops ms l))
          (SentPart-none b c [] l k)
    | no within ↦ elim (dec_lt (9 * b / 10) (size_of m + c)) [
      | yes over ↦
          subst (λ a. SentPart b c a l (serve_from P (map received (m ∷ ms)) under_budget l).1)
            (sym (admit_last b c m ms (omega arith) over))
            (after_last b c m ms l _ (step_last b c m l k small (omega arith) (omega arith) over))
      | no below ↦
          let more = step_more b c m l k small (omega arith) (omega arith) (omega arith) in
          subst (λ a. SentPart b c a l (serve_from P (map received (m ∷ ms)) under_budget l).1)
            (sym (admit_more b c m ms (omega arith)))
            (after_more b c m ms (admit b (size_of m + c) ms) l _ more
              (serve-SentPart b small ms (size_of m + c) _ more.2 (omega arith)))
    ]
  ]
