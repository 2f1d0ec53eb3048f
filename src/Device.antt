-- ===== src/Device.antt =====
-- device/device.go: the network rates and the hash of the interfaces' addresses.
pub mod Samples
pub mod Hash
pub mod Metrics
use auklet_client_c.Prelude.{
  ℕ, zero, suc, ◌+◌, ◌-◌, ◌/◌, ◌%◌, String, ◌<>◌, Bool, true, false, Option, none, some, List, [],
  ◌∷◌, ◌++◌, replicate, ◌==◌, nat_eq, ltb, if◌then◌else◌,
}
use auklet_client_c.Prelude.Int.{pos}
use auklet_client_c.Prelude.Decimal.{decimal}
use auklet_client_c.Prelude.Int64.{two_64}

-- `rates`: two `uint64`s.
pub record Rates : Type 0 where
  pub inbound : ℕ
  pub outbound : ℕ

abbrev pub no_rates : Rates
no_rates = record { inbound = 0; outbound = 0 }

-- The subtraction of `uint64`s wraps.
abbrev pub sub_u64 : ℕ → ℕ → ℕ
sub_u64 a b = (a + two_64 - b) % two_64

unfoldable pub diff : Rates → Rates → Rates
diff cur prev = record {
  inbound = sub_u64 cur.inbound prev.inbound;
  outbound = sub_u64 cur.outbound prev.outbound;
}

-- What `select` takes in `Monitor.serve`: the end, a tick with what `net.IOCounters` gives (`none` if
-- it fails or is not one counter), or a reader of the rates.
pub data Event : Type 0 where
  done : Event
  tick : Option Rates → Event
  read : Event

pub record Monitor : Type 0 where
  pub prev : Rates
  pub cur : Rates
  pub sent : List Rates
  pub stopped : Bool

-- The function `update`.
unfoldable pub update : Option Rates → Monitor → Monitor
update none m = m
update (some r) m = record m { prev = m.cur; cur = r }

-- The start of `serve`: one update.
unfoldable pub start : Option Rates → Monitor
unfolding update
start stats = update stats (record { prev = no_rates; cur = no_rates; sent = []; stopped = false })

unfoldable pub react : Event → Monitor → Monitor
unfolding update diff
react done m = record m { stopped = true }
react (tick stats) m = update stats m
react read m = record m { sent = m.sent ++ (diff m.cur m.prev ∷ []) }

go_on : Bool → (Monitor → Monitor) → Monitor → Monitor
go_on true f m = m
go_on false f m = f m

-- The loop of `serve` on the events that come.
unfoldable pub serve : List Event → Monitor → Monitor
unfolding react go_on
serve [] m = m
serve (e ∷ es) m = let m' = react e m in go_on m'.stopped (serve es) m'

-- `sum[h] += k` for the bytes of an address, `none` for the panic past the sixth.
unfoldable pub add_address : List ℕ → List ℕ → Option (List ℕ)
add_address sum [] = some sum
add_address [] (k ∷ ks) = none
add_address (s ∷ sum) (k ∷ ks) = elim (add_address sum ks) [
  | none ↦ none
  | some rest ↦ some ((s + k) % 256 ∷ rest)
]

-- The loop over the interfaces' addresses. An empty address changes nothing.
unfoldable pub add_addresses : List ℕ → List (List ℕ) → Option (List ℕ)
unfolding add_address
add_addresses sum [] = some sum
add_addresses sum (a ∷ more) = elim (add_address sum a) [
  | none ↦ none
  | some sum' ↦ add_addresses sum' more
]

hex_digit : ℕ → String
hex_digit n =
    if ltb n 10
    then decimal (pos n)
    else if n == 10
    then "a"
    else if n == 11
    then "b"
    else if n == 12
    then "c"
    else if n == 13
    then "d"
    else if n == 14
    then "e"
    else "f"

-- `%x` of a text of bytes.
unfoldable pub hex : List ℕ → String
unfolding hex_digit
hex [] = ""
hex (b ∷ bs) = hex_digit (b / 16) <> (hex_digit (b % 16) <> hex bs)

-- `IfaceHash`, of the interfaces' addresses; `none` is a panic.
unfoldable pub iface_hash : List (List ℕ) → Option String
unfolding add_addresses hex
iface_hash addresses = elim (add_addresses (replicate 6 0) addresses) [
  | none ↦ none
  | some sum ↦ some (hex sum)
]
