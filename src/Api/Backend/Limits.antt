-- ===== src/Api/Backend/Limits.antt =====
-- What `DataLimit` makes of the backend's answer.
use auklet_client_c.Prelude.{
  ◌≡◌, refl, ap, ◌∙◌, true, false, String, Option, none, some, ok, nat_eq,
}
use auklet_client_c.Prelude.Int.{ℤ, pos}
use auklet_client_c.Json.{
  Json, integer, object, field, end, fits_int64, read_struct, read_int, read_pointer,
}
use auklet_client_c.Json.Struct.{pointer_json, FitsPointer}
use auklet_client_c.Api.DataLimit.{
  DataLimit, CellularConfig, Config, no_config, read_limits, data_limit_of,
}
use auklet_client_c.Api.Http.{Services, Api, Response, unmarshal}
use auklet_client_c.Api.Backend.{data_limit, limits_request, limits_of}

-- The backend's answer for a storage limit, an emission period, a cellular limit and a day.
abbrev pub limits_json : Option ℤ → ℤ → Option ℤ → ℤ → Json
limits_json storage period limit date = object (
    field "config"
      (object (
        field "emission_period" (integer period) (
          field "storage" (object (field "storage_limit" (pointer_json storage) end)) (
            field "data"
              (object (
                field "cellular_data_limit" (pointer_json limit)
                  (field "normalized_cell_plan_date" (integer date) end)))
              end))))
      end)

-- The cellular configuration for a limit that may be missing.
abbrev pub cellular_of : Option ℤ → ℤ → CellularConfig
cellular_of none date = record { date = date; defined = false; limit = pos 0 }
cellular_of (some n) date = record { date = date; defined = true; limit = n }

-- The whole result for that answer.
abbrev pub limits : Option ℤ → ℤ → Option ℤ → ℤ → DataLimit
limits storage period limit date = record {
  storage = storage;
  emission_period = period;
  cellular = cellular_of limit date;
}

data_limit_of-limits :
    (storage : Option ℤ) (period : ℤ) (limit : Option ℤ) (date : ℤ)
    → data_limit_of (record {
      emission_period = period;
      storage = storage;
      cell = record { limit = limit; date = date };
    })
      ≡ limits storage period limit date
unfolding data_limit_of
data_limit_of-limits storage period none date = refl
data_limit_of-limits storage period (some l) date = refl

read_limits-json :
    (storage : Option ℤ) (period : ℤ) (limit : Option ℤ) (date : ℤ)
    → FitsPointer storage
    → fits_int64 period ≡ true
    → FitsPointer limit
    → fits_int64 date ≡ true
    → read_limits no_config (limits_json storage period limit date) ≡ (
      record {
        emission_period = period;
        storage = storage;
        cell = record { limit = limit; date = date };
      },
      none,
    )
unfolding read_limits read_struct read_int read_pointer
read_limits-json none period none date hs hp hl hd = rw (hp, hd) refl
read_limits-json none period (some l) date hs hp hl hd = rw (hp, hl, hd) refl
read_limits-json (some s) period none date hs hp hl hd = rw (hp, hs, hd) refl
read_limits-json (some s) period (some l) date hs hp hl hd = rw (hp, hs, hl, hd) refl

module _ (V : Services) where
  config_ok :
      (r : Response) (j : Json) (c : Config)
      → V.parse r.body ≡ ok j
      → read_limits no_config j ≡ (c, none)
      → limits_of V (ok r) ≡ ok (data_limit_of c)
  unfolding limits_of
  config_ok r j c h k =
      rw (h, unmarshal, k) (ap (λ (q : Config × Option String). ok (data_limit_of q.0)) k)

module _ (V : Services) (a : Api) (n : V.Net) where
  -- With an answer of status 200 the limits come out as the backend wrote them: a limit that is null
  -- is no limit, and a cellular limit is defined exactly if it is not null. The numbers have 64
  -- bits.
  pub data_limit-read :
      (r : Response) (storage : Option ℤ) (period : ℤ) (limit : Option ℤ) (date : ℤ)
      → (V.send n (limits_request V a)).1 ≡ ok r
      → r.status_code ≡ 200
      → V.parse r.body ≡ ok (limits_json storage period limit date)
      → FitsPointer storage
      → fits_int64 period ≡ true
      → FitsPointer limit
      → fits_int64 date ≡ true
      → (data_limit V a n).1 ≡ ok (limits storage period limit date)
  unfolding data_limit
  data_limit-read r storage period limit date sent good parsed hs hp hl hd =
      rw (sent, good)
        (config_ok V r (limits_json storage period limit date) _ parsed
            (read_limits-json storage period limit date hs hp hl hd)
          ∙ ap ok (data_limit_of-limits storage period limit date))
