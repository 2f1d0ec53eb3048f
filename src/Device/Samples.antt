-- ===== src/Device/Samples.antt =====
-- Which rates the monitor sends.
use auklet_client_c.Prelude.{
  ℕ, ◌+◌, ◌-◌, ◌%◌, ◌<◌, ◌≡◌, sym, ◌∙◌, false, none, some, List, [], ◌∷◌, ◌++◌, append-nil,
  append_assoc, arith,
}
use auklet_client_c.Prelude.Int64.{two_64}
use auklet_client_c.Device.{Rates, no_rates, sub_u64, diff, Event, done, tick, read, start, serve}

-- A counter that grew by less than its range gives its growth, also where it wrapped around.
pub sub_u64_growth :
    (prev k : ℕ) → prev < two_64 → k < two_64 → sub_u64 ((prev + k) % two_64) prev ≡ k
sub_u64_growth prev k h g = omega arith

-- The growth from one sample to the next, of counters of 64 bits that wrap around.
abbrev pub growth : Rates → Rates → Rates
growth before after = record {
  inbound = (after.inbound + two_64 - before.inbound) % two_64;
  outbound = (after.outbound + two_64 - before.outbound) % two_64;
}

-- The rates that readers get: the growth from the sample before the last to the last.
abbrev pub rates_from : Rates → Rates → List Event → List Rates
rates_from prev cur [] = []
rates_from prev cur (done ∷ es) = []
rates_from prev cur (tick none ∷ es) = rates_from prev cur es
rates_from prev cur (tick (some r) ∷ es) = rates_from cur r es
rates_from prev cur (read ∷ es) = growth prev cur ∷ rates_from prev cur es

sent-serve :
    (es : List Event) (prev cur : Rates) (old : List Rates)
    → (serve es (record { prev = prev; cur = cur; sent = old; stopped = false })).sent
      ≡ old ++ rates_from prev cur es
unfolding serve diff
sent-serve [] prev cur old = sym (append-nil old)
sent-serve (done ∷ es) prev cur old = sym (append-nil old)
sent-serve (tick none ∷ es) prev cur old = sent-serve es prev cur old
sent-serve (tick (some r) ∷ es) prev cur old = sent-serve es cur r old
sent-serve (read ∷ es) prev cur old =
    sent-serve es prev cur (old ++ (diff cur prev ∷ []))
    ∙ append_assoc old (diff cur prev ∷ []) (rates_from prev cur es)

growth-no_rates : (r : Rates) → r.inbound < two_64 → r.outbound < two_64 → growth no_rates r ≡ r
growth-no_rates r h k = ground arith

-- When the first sample, of two counters of 64 bits, can be read, each reader gets the growth from
-- the sample before the last one to the last one, failed ticks left out, until the monitor is
-- done. There is a sample before the first one, of zeros, and the growth from it is the first
-- sample itself: these are the rates until the second sample comes.
pub start-sent :
    (r : Rates) (es : List Event)
    → r.inbound < two_64
    → r.outbound < two_64
    → ((serve es (start (some r))).sent ≡ rates_from no_rates r es) × (growth no_rates r ≡ r)
unfolding start
start-sent r es h k = (sent-serve es no_rates r [], growth-no_rates r h k)
