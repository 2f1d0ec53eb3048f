-- ===== src/Message/Limiter/Overflow.antt =====
-- A limit so large that `1e6 * megabytes` does not fit in an `int`.
use auklet_client_c.Prelude.{
  ℕ, ◌-◌, ◌*◌, ◌≤◌, ◌<◌, ◌≡◌, refl, ap, ◌∙◌, inl, inr, true, List, [], ◌∷◌, map, arith,
}
use auklet_client_c.Prelude.Int.{pos, negsuc, ◌*ℤ◌}
use auklet_client_c.Prelude.Int64.{two_63, two_64, mul64, add64-pos}
use auklet_client_c.Clock.{Time}
use auklet_client_c.Broker.Message.{Message, size_of}
use auklet_client_c.Api.DataLimit.{CellularConfig}
use auklet_client_c.Message.Persistor.{Persistor}
use auklet_client_c.Message.Limiter.State.{DataLimiter, State, under_budget, over_budget}
use auklet_client_c.Message.Limiter.Run.{configured, received, serve_from, step}
use auklet_client_c.Message.Limiter.Budget.{total_bytes, serve_over}
use auklet_client_c.Message.Limiter.Order.{step-silent}
use auklet_client_c.Message.Limiter.Periods.{Waits}

megabytes_wrap :
    (n : ℕ)
    → two_63 ≤ 1000000 * n
    → 1000000 * n < two_64
    → mul64 (pos 1000000) (pos n) ≡ negsuc (two_64 - 1 - 1000000 * n)
unfolding mul64 ◌*ℤ◌
megabytes_wrap n h k = ground arith

-- A limiter whose budget is negative, with nothing counted.
record Negative {S : Type 0} (l : DataLimiter S) (k : ℕ) : Type 0 where
  has : l.has_budget ≡ true
  budget_is : l.budget ≡ negsuc k
  count_is : l.count ≡ pos 0

module _ (P : Persistor) where
  configure_wraps :
      (n : ℕ) (conf : CellularConfig) (now : Time) (s : State) (l : DataLimiter P.State)
      → Waits s
      → conf.defined ≡ true
      → conf.limit ≡ pos n
      → two_63 ≤ 1000000 * n
      → 1000000 * n < two_64
      → let r = step P (configured conf now) s l in
        Waits r.0 × Negative r.1 (two_64 - 1 - 1000000 * n)
  unfolding step
  configure_wraps n conf now s l w defined limit h k =
      ground (arith, w, defined, limit, megabytes_wrap n h k)

  step-Negative :
      (k : ℕ) (m : Message) (l : DataLimiter P.State)
      → Negative l k
      → size_of m < two_63
      → step P (received m) under_budget l ≡ (over_budget, l)
  unfolding step
  step-Negative k m l neg small =
      ground (arith, neg.has, neg.budget_is, neg.count_is, add64-pos (size_of m) 0)

  serve-Negative :
      (k : ℕ) (ms : List Message) (s : State) (l : DataLimiter P.State)
      → Waits s
      → Negative l k
      → total_bytes ms < two_63
      → (serve_from P (map received ms) s l).1.out ≡ l.out
  unfolding serve_from
  serve-Negative k [] s l w neg small = refl
  serve-Negative k (m ∷ ms) s l (inr over) neg small =
      ap (λ (r : State × DataLimiter P.State). r.1.out) (serve_over P (m ∷ ms) s l over)
  serve-Negative k (m ∷ ms) s l (inl under) neg small =
      ap (λ t. (serve_from P (map received (m ∷ ms)) t l).1.out) under
      ∙ ap (λ (r : State × DataLimiter P.State). (serve_from P (map received ms) r.0 r.1).1.out)
          (step-Negative k m l neg (omega arith))
      ∙ ap (λ (r : State × DataLimiter P.State). r.1.out) (serve_over P ms over_budget l refl)

  -- A configured limit of `n` megabytes, where `1e6 * n` bytes exceed the largest `int` but have 64
  -- bits, makes the budget negative: no message at all is sent in the period that follows.
  pub limit_overflow :
      (n : ℕ) (ms : List Message) (conf : CellularConfig) (now : Time) (s : State)
      (l : DataLimiter P.State)
      → Waits s
      → conf.defined ≡ true
      → conf.limit ≡ pos n
      → two_63 ≤ 1000000 * n
      → 1000000 * n < two_64
      → total_bytes ms < two_63
      → (serve_from P (configured conf now ∷ map received ms) s l).1.out ≡ l.out
  unfolding serve_from
  limit_overflow n ms conf now s l w defined limit h k small =
      let r = configure_wraps n conf now s l w defined limit h k in
      serve-Negative _ ms _ _ r.0 r.1 small ∙ step-silent P (configured conf now) s l refl
