-- ===== src/Device/Metrics.antt =====
-- The public address, and `GetMetrics` of `Monitor`, of device/device.go.
use auklet_client_c.Prelude.{
  ℕ, ◌+◌, ◌%◌, ◌<◌, ◌≡◌, refl, false, String, Option, none, some, List, [], ◌∷◌, if◌then◌else◌,
}
use auklet_client_c.Prelude.Int64.{two_64}
use auklet_client_c.Device.{Rates, no_rates, diff, Monitor, react, read}
use auklet_client_c.Device.Samples.{sub_u64_growth}

-- `CurrentIP`, of what the service gives, which may be an address with an error: the address, and
-- what is logged.
unfoldable pub current_ip : String × Option String → String × List String
current_ip (ip, none) = (ip, [])
current_ip (ip, some e) = (ip, e ∷ [])

-- `Metrics`, with percentages of the type `P`.
pub record Metrics (P : Type 0) : Type 0 where
  pub cpu_percent : P
  pub mem_percent : P
  pub rates : Rates

-- The receive from the channel of rates: after the end of `serve` it is closed, and gives zeros.
unfoldable pub receive_rates : Monitor → Rates × Monitor
receive_rates m = if m.stopped then (no_rates, m) else (diff m.cur m.prev, react read m)

module _ {P : Type 0} where
  with_percents : List P → Option P → Rates → Option (Metrics P)
  with_percents [] m r = none
  with_percents (c ∷ cs) none r = none
  with_percents (c ∷ cs) (some m) r = some (record { cpu_percent = c; mem_percent = m; rates = r })

  -- `GetMetrics`, of the percentages that `cpu.Percent` gives and of what `mem.VirtualMemory` points
  -- to. Their errors are ignored: with no percentage or a nil pointer it panics, which is `none`.
  unfoldable pub get_metrics : List P → Option P → Monitor → Monitor × Option (Metrics P)
  unfolding with_percents
  get_metrics cpu memory m = let (r, m') = receive_rates m in (m', with_percents cpu memory r)

  -- Counters that grew by less than their range since the last sample give their growth as the
  -- rates, also where they wrapped around.
  pub get_metrics-growth :
      (c : P) (cs : List P) (u : P) (prev : Rates) (j k : ℕ) (sent : List Rates)
      → prev.inbound < two_64
      → prev.outbound < two_64
      → j < two_64
      → k < two_64
      → (get_metrics (c ∷ cs) (some u) (record {
        prev = prev;
        cur = record {
          inbound = (prev.inbound + j) % two_64;
          outbound = (prev.outbound + k) % two_64;
        };
        sent = sent;
        stopped = false;
      })).1
        ≡ some (record {
          cpu_percent = c;
          mem_percent = u;
          rates = record { inbound = j; outbound = k };
        })
  unfolding get_metrics receive_rates diff
  get_metrics-growth c cs u prev j k sent small small' grown grown' =
      rw (sub_u64_growth prev.inbound j small grown, sub_u64_growth prev.outbound k small' grown')
        refl
