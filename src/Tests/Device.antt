-- ===== src/Tests/Device.antt =====
-- The monitor, the hash of the interfaces, and the settings.
use auklet_client_c.Device.{diff}
use auklet_client_c.Device.Metrics.{current_ip, receive_rates, get_metrics}
use auklet_client_c.Prelude.{ℕ, arith}
use auklet_client_c.Prelude.{◌≡◌, ◌≢◌, ◌↔◌, refl, true, String, none, some, [], ◌∷◌}
use auklet_client_c.Prelude.Decimal.{decimal}
use auklet_client_c.Device.{
  Rates, no_rates, done, tick, read, start, serve, iface_hash, hex, add_addresses,
}
use auklet_client_c.Device.Samples.{growth, rates_from, start-sent}
use auklet_client_c.Device.Hash.{any_long, iface_hash_panics}
use auklet_client_c.Config.{base_url, base_url-nonempty}

abbrev first : Rates
first = record { inbound = 1000; outbound = 500 }

abbrev second : Rates
second = record { inbound = 1100; outbound = 505 }

start-sent_example :
    ((serve
        (read ∷ tick none ∷ tick (some second) ∷ read ∷ done ∷ read ∷ [])
        (start (some first))).sent
      ≡ rates_from no_rates first (read ∷ tick none ∷ tick (some second) ∷ read ∷ done ∷ read ∷ []))
    × (growth no_rates first ≡ first)
start-sent_example =
    start-sent first (read ∷ tick none ∷ tick (some second) ∷ read ∷ done ∷ read ∷ []) (omega arith)
      (omega arith)

iface_hash_panics_example :
    (iface_hash ((1 ∷ 2 ∷ 3 ∷ 4 ∷ 5 ∷ 6 ∷ 7 ∷ []) ∷ []) ≡ none)
    ↔ (any_long ((1 ∷ 2 ∷ 3 ∷ 4 ∷ 5 ∷ 6 ∷ 7 ∷ []) ∷ []) ≡ true)
iface_hash_panics_example = iface_hash_panics ((1 ∷ 2 ∷ 3 ∷ 4 ∷ 5 ∷ 6 ∷ 7 ∷ []) ∷ [])

-- The addresses' bytes are added up without carry.
iface_hash_test :
    iface_hash ((255 ∷ 0 ∷ 0 ∷ 0 ∷ 0 ∷ 10 ∷ []) ∷ [] ∷ (2 ∷ 0 ∷ 0 ∷ 0 ∷ 0 ∷ 161 ∷ []) ∷ [])
    ≡ some "0100000000ab"
unfolding iface_hash add_addresses hex decimal
iface_hash_test = refl

abbrev unset : String → String
unset name = ""

unset_test : base_url unset "" ≢ ""
unset_test = base_url-nonempty unset ""

-- No percentage of the processor: a panic.
get_metrics_test_1 : (get_metrics {P = ℕ} [] (some 7) (start (some first))).1 ≡ none
unfolding get_metrics receive_rates
get_metrics_test_1 = refl

get_metrics_test_2 :
    (get_metrics {P = ℕ} (3 ∷ []) (some 7) (serve (tick (some second) ∷ []) (start (some first)))).1
    ≡ some (record {
      cpu_percent = 3;
      mem_percent = 7;
      rates = record { inbound = 100; outbound = 5 };
    })
unfolding get_metrics receive_rates serve start diff
get_metrics_test_2 = refl

current_ip_test : current_ip ("", some "no route") ≡ ("", "no route" ∷ [])
unfolding current_ip
current_ip_test = refl
