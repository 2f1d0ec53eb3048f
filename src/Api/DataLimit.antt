-- ===== src/Api/DataLimit.antt =====
-- The data limits of api/api.go, and how they are read from the backend's JSON.
use auklet_client_c.Prelude.{Bool, true, false, Option, none, some, [], ◌∷◌}
use auklet_client_c.Prelude.Int.{ℤ, pos}
use auklet_client_c.Json.{Reader, into, read_int, read_pointer, read_struct}

-- `date` is the day of the month, in 1 to 28 as the backend gives it.
pub record CellularConfig : Type 0 where
  pub date : ℤ
  pub defined : Bool
  pub limit : ℤ

pub record DataLimit : Type 0 where
  pub storage : Option ℤ
  pub emission_period : ℤ
  pub cellular : CellularConfig

-- The struct `data` of `API.DataLimit`.
pub record Data : Type 0 where
  pub limit : Option ℤ
  pub date : ℤ

-- The struct `config`, with its struct `storage` of one field.
pub record Config : Type 0 where
  pub emission_period : ℤ
  pub storage : Option ℤ
  pub cell : Data

abbrev pub no_config : Config
no_config = record {
  emission_period = pos 0;
  storage = none;
  cell = record { limit = none; date = pos 0 };
}

abbrev read_pointer_int : Reader (Option ℤ)
read_pointer_int = read_pointer (pos 0) read_int

unfoldable pub read_data : Reader Data
read_data = read_struct (
    ("cellular_data_limit", into (λ d. d.limit) (λ l d. record d { limit = l }) read_pointer_int)
    ∷ ("normalized_cell_plan_date", into (λ d. d.date) (λ n d. record d { date = n }) read_int)
    ∷ [])

unfoldable pub read_storage : Reader (Option ℤ)
read_storage = read_struct (("storage_limit", into (λ s. s) (λ l s. l) read_pointer_int) ∷ [])

unfoldable pub read_config : Reader Config
unfolding read_data read_storage
read_config = read_struct (
    (
      "emission_period",
      into (λ c. c.emission_period) (λ n c. record c { emission_period = n }) read_int,
    )
    ∷ ("storage", into (λ c. c.storage) (λ s c. record c { storage = s }) read_storage)
    ∷ ("data", into (λ c. c.cell) (λ d c. record c { cell = d }) read_data)
    ∷ [])

-- The outermost struct, of one field.
unfoldable pub read_limits : Reader Config
unfolding read_config
read_limits = read_struct (("config", into (λ c. c) (λ n c. n) read_config) ∷ [])

is_set : Option ℤ → Bool
is_set none = false
is_set (some _) = true

value_or_zero : Option ℤ → ℤ
value_or_zero none = pos 0
value_or_zero (some n) = n

-- The end of `API.DataLimit`.
unfoldable pub data_limit_of : Config → DataLimit
unfolding is_set value_or_zero
data_limit_of c = record {
  storage = c.storage;
  emission_period = c.emission_period;
  cellular = record {
    date = c.cell.date;
    defined = is_set c.cell.limit;
    limit = value_or_zero c.cell.limit;
  };
}
