-- ===== src/Message/Limiter/Admission.antt =====
-- What the limiter lets through of a row of messages with no new period between them.
use auklet_client_c.Prelude.{
  ℕ, ◌+◌, ◌*◌, ◌/◌, ◌≤◌, ◌<◌, ◌≡◌, sym, ap, ◌∙◌, true, some, List, [], ◌∷◌, ◌++◌, map, append-nil,
  append_assoc, arith, max,
}
use native.Mathlib.Decide.{dec_lt}
use mathlib.Core.Path.{subst}
use auklet_client_c.Prelude.Int.{pos}
use auklet_client_c.Prelude.Int64.{two_63, add64, add64-pos}
use auklet_client_c.Broker.Message.{Message, size_of}
use auklet_client_c.Message.Persistor.{Persistor, Doc}
use auklet_client_c.Message.Limiter.State.{
  DataLimiter, State, under_budget, over_budget, initial_state, send, encode,
}
use auklet_client_c.Message.Limiter.Run.{Event, received, serve_from, serve, step}
use auklet_client_c.Message.Limiter.Budget.{
  total_bytes, admit, admit_stop, admit_last, admit_more, admit-within, Budgeted, SentPart,
  SentPart-none, serve-SentPart, serve_over, over_state_drops, step_stop, step_last, step_more,
  over_threshold-pos, total_bytes-append,
}

-- A part of what is within the budget is within it.
part-within :
    (b c : ℕ) (ms sent rest : List Message)
    → admit b c ms ≡ sent ++ rest
    → total_bytes sent + c ≤ max b c
part-within b c ms sent rest e =
    omega (arith, admit-within b c ms, ap total_bytes e, total_bytes-append sent rest)

-- The store takes every text that it is given.
abbrev pub Saves : Persistor → Type 0
Saves P = (s : P.State) (d : Doc) → (P.save s d).1 ≡ true

module _ (P : Persistor) where
  -- What was sent, whose bytes are counted, and stay within the budget or were none.
  pub record SentWithin (b c : ℕ) (old : List Message) (r : DataLimiter P.State) : Type 0 where
    pub sent : List Message
    pub out_is : r.out ≡ old ++ sent
    pub count_is : r.count ≡ pos (total_bytes sent + c)
    pub within : total_bytes sent + c ≤ max b c

  SentPart-within :
      (b c : ℕ) (ms : List Message) (l r : DataLimiter P.State)
      → SentPart P b c (admit b c ms) l r
      → SentWithin b c l.out r
  SentPart-within b c ms l r p = record {
    sent = p.sent;
    out_is = p.out_is;
    count_is = p.counted.count_is;
    within = part-within b c ms p.sent p.rest p.split;
  }

  abbrev timed : DataLimiter P.State → DataLimiter P.State
  timed l = record l { period_timer = some l.period_end }

  serve_settled :
      (es : List Event) (l : DataLimiter P.State) (s : State)
      → (initial_state P l).0 ≡ s
      → serve P es l ≡ serve_from P es s (timed l)
  unfolding serve initial_state
  serve_settled es l s e = ap (λ t. serve_from P es t (timed l)) e

  module _ (b c : ℕ) (l : DataLimiter P.State) (k : Budgeted l b c) (small : 9 * b < two_63) where
    pub serve-spent :
        (es : List Event) → 9 * b / 10 < c → serve P es l ≡ serve_from P es over_budget (timed l)
    unfolding initial_state
    serve-spent es h =
        serve_settled es l over_budget
          (ground (arith, k.has, k.budget_is, k.count_is, over_threshold-pos c b))

    pub serve-unspent :
        (es : List Event) → c ≤ 9 * b / 10 → serve P es l ≡ serve_from P es under_budget (timed l)
    unfolding initial_state
    serve-unspent es h =
        serve_settled es l under_budget
          (ground (arith, k.has, k.budget_is, k.count_is, over_threshold-pos c b))

    timed-Budgeted : Budgeted (timed l) b c
    timed-Budgeted = record { has = k.has; budget_is = k.budget_is; count_is = k.count_is }

  -- However the store behaves, the bytes that are sent before the next period begins stay within the
  -- budget together with those that were counted already, and are counted; if what was counted
  -- exceeds the budget, no byte is sent. The numbers are in the range of `int`.
  pub serve-within :
      (b c : ℕ) (ms : List Message) (l : DataLimiter P.State)
      → Budgeted l b c
      → 9 * b < two_63
      → total_bytes ms + c < two_63
      → SentWithin b c l.out (serve P (map received ms) l).1
  serve-within b c ms l k small fits = elim (dec_lt (9 * b / 10) c) [
    | yes over ↦
        subst (λ (q : State × DataLimiter P.State). SentWithin b c l.out q.1)
          (sym (serve-spent b c l k small (map received ms) over ∙ over_state_drops P ms (timed l)))
          (SentPart-within b c ms (timed l) (timed l)
            (SentPart-none P b c (admit b c ms) (timed l) (timed-Budgeted b c l k small)))
    | no under ↦
        subst (λ (q : State × DataLimiter P.State). SentWithin b c l.out q.1)
          (sym (serve-unspent b c l k small (map received ms) (omega arith)))
          (SentPart-within b c ms (timed l) _
            (serve-SentPart P b small ms c (timed l) (timed-Budgeted b c l k small) fits))
  ]

  module _ (saves : Saves P) (b : ℕ) (small : 9 * b < two_63) where
    step_saved :
        (c : ℕ) (m : Message) (l : DataLimiter P.State)
        → Budgeted l b c
        → size_of m + c < two_63
        → size_of m + c ≤ 9 * b / 10
        → (step P (received m) under_budget l).0 ≡ under_budget
    unfolding step
    step_saved c m l k fits below = ground (
      arith,
      k.has,
      k.budget_is,
      k.count_is,
      add64-pos (size_of m) c,
      over_threshold-pos (size_of m + c) b,
      saves (send m l).store
          (encode (record (send m l) { count = add64 l.count (pos (size_of m)) })),
    )

    out-serve_from :
        (ms : List Message) (c : ℕ) (l : DataLimiter P.State)
        → Budgeted l b c
        → total_bytes ms + c < two_63
        → (serve_from P (map received ms) under_budget l).1.out ≡ l.out ++ admit b c ms
    unfolding serve_from
    out-serve_from [] c l k fits = unfold admit in sym (append-nil l.out)
    out-serve_from (m ∷ ms) c l k fits = elim (dec_lt b (size_of m + c)) [
      | yes over ↦
          ap (λ (r : State × DataLimiter P.State). (serve_from P (map received ms) r.0 r.1).1.out)
            (step_stop P b c m l k small (omega arith) over)
          ∙ ap (λ (r : State × DataLimiter P.State). r.1.out) (over_state_drops P ms l)
          ∙ sym (append-nil l.out)
          ∙ ap (λ a. l.out ++ a) (sym (admit_stop b c m ms over))
      | no within ↦ elim (dec_lt (9 * b / 10) (size_of m + c)) [
        | yes over ↦
            let last = step_last P b c m l k small (omega arith) (omega arith) over in
            ap (λ (r : State × DataLimiter P.State). r.1.out) (serve_over P ms _ _ last.0)
            ∙ last.1
            ∙ ap (λ a. l.out ++ a) (sym (admit_last b c m ms (omega arith) over))
        | no below ↦
            let more = step_more P b c m l k small (omega arith) (omega arith) (omega arith) in
            ap
              (λ s. (serve_from P (map received ms) s (step P (received m) under_budget l).1).1.out)
              (step_saved c m l k (omega arith) (omega arith))
            ∙ out-serve_from ms (size_of m + c) _ more.2 (omega arith)
            ∙ ap (λ o. o ++ admit b (size_of m + c) ms) more.1
            ∙ append_assoc l.out (m ∷ []) (admit b (size_of m + c) ms)
            ∙ ap (λ a. l.out ++ a) (sym (admit_more b c m ms (omega arith)))
      ]
    ]

    -- With a store that works the limiter sends exactly what the budget admits: messages within nine
    -- tenths of it, then one more if it is within the budget, then none. The numbers are in the
    -- range of `int`, and at most nine tenths are counted before.
    pub serve_admits :
        (ms : List Message) (c : ℕ) (l : DataLimiter P.State)
        → Budgeted l b c
        → total_bytes ms + c < two_63
        → c ≤ 9 * b / 10
        → (serve P (map received ms) l).1.out ≡ l.out ++ admit b c ms
    serve_admits ms c l k fits h =
        ap (λ (r : State × DataLimiter P.State). r.1.out)
          (serve-unspent b c l k small (map received ms) h)
        ∙ out-serve_from ms c (timed l) (timed-Budgeted b c l k small) fits
