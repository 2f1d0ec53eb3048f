-- ===== src/Message/Limiter/State.antt =====
-- The limiter's fields and the operations that the state functions are made of.
use auklet_client_c.Prelude.{
  ℕ, suc, ◌-◌, Bool, true, false, ◌&&◌, Option, none, some, List, [], ◌∷◌, ◌++◌, if◌then◌else◌,
}
use auklet_client_c.Prelude.Int.{ℤ, pos}
use auklet_client_c.Prelude.Int64.{add64, mul64, quot64, gtb64}
use auklet_client_c.Clock.{Time, before, add_month, date}
use auklet_client_c.Broker.Message.{Message, size_of}
use auklet_client_c.Api.DataLimit.{CellularConfig}
use auklet_client_c.Message.Persistor.{Persistor, Doc}

-- `out` holds what was sent on the output channel, and `out_closed` says that it was closed.
-- `period_timer` is the instant at which the timer was set to expire.
pub record DataLimiter (S : Type 0) : Type 0 where
  pub budget : ℤ
  pub has_budget : Bool
  pub count : ℤ
  pub period_end : Time
  pub period_timer : Option Time
  pub store : S
  pub out : List Message
  pub out_closed : Bool

pub data State : Type 0 where
  terminal initial under_budget over_budget cleanup : State

-- One more round than there are months from the period's end to now.
unfoldable pub rounds : Time → Time → ℕ
rounds period_end now = suc (suc now.month - period_end.month)

-- The loop of `ensureFuture`.
unfoldable pub ensure_loop : ℕ → Time → Time → Time
ensure_loop ℕ.zero period_end now = period_end
ensure_loop (suc fuel) period_end now =
    let next = ensure_loop fuel (add_month period_end) now in
    if before period_end now then next else period_end

unfoldable pub ensure_future : Time → Time → Time
unfolding ensure_loop rounds
ensure_future period_end now = ensure_loop (rounds period_end now) period_end now

-- Midnight of the given day of the current month.
unfoldable pub day_this_month : ℤ → Time → Time
day_this_month day_of_month now = date now.month day_of_month 0

-- More than nine tenths of the budget.
unfoldable pub over_threshold : ℤ → ℤ → Bool
over_threshold n budget = gtb64 n (quot64 (mul64 (pos 9) budget) 10)

abbrev or_old : {A : Type 0} → Option A → A → A
or_old none old = old
or_old (some new) old = new

module _ {S : Type 0} where
  unfoldable pub set_budget : ℤ → Bool → DataLimiter S → DataLimiter S
  set_budget megabytes has_budget l = record l {
    budget = mul64 (pos 1000000) megabytes;
    has_budget = has_budget;
  }

  -- `Encode`: the exported fields.
  unfoldable pub encode : DataLimiter S → Doc
  encode l = Doc.object (some l.budget) (some l.has_budget) (some l.count) (some l.period_end)

  -- `Decode`: a member that is missing leaves the field as it is.
  unfoldable pub decode : Doc → DataLimiter S → DataLimiter S
  decode (Doc.object b h c p) l = record l {
    budget = or_old b l.budget;
    has_budget = or_old h l.has_budget;
    count = or_old c l.count;
    period_end = or_old p l.period_end;
  }
  decode Doc.malformed l = l

  -- `l.out <- m`
  unfoldable pub send : Message → DataLimiter S → DataLimiter S
  send m l = record l { out = l.out ++ (m ∷ []) }

module _ (P : Persistor) where
  -- `l.store.Save(l)`: whether there was no error.
  unfoldable pub save : DataLimiter P.State → DataLimiter P.State × Bool
  save l = let (s, saved) = P.save l.store (encode l) in (record l { store = s }, saved)

  unfoldable pub reset : DataLimiter P.State → DataLimiter P.State × Bool
  unfolding save
  reset l = save (record l { count = pos 0 })

  unfoldable pub increment : ℕ → DataLimiter P.State → DataLimiter P.State × Bool
  unfolding save
  increment n l = save (record l { count = add64 l.count (pos n) })

  unfoldable pub start_this_period : Time → DataLimiter P.State → DataLimiter P.State
  unfolding reset
  start_this_period now l = (reset (record l { period_end = ensure_future l.period_end now })).0

  -- `initial`: set the timer, and see whether the period's budget is spent already.
  unfoldable pub initial_state : DataLimiter P.State → State × DataLimiter P.State
  initial_state l = (
    if l.has_budget && over_threshold l.count l.budget then over_budget else under_budget,
    record l { period_timer = some l.period_end },
  )

  keep_or_stop : DataLimiter P.State × Bool → State × DataLimiter P.State
  keep_or_stop (l, true) = (under_budget, l)
  keep_or_stop (l, false) = (if l.has_budget then over_budget else under_budget, l)

  -- The end of `handleMessage`: send, count, and stop if the count of a budget was not saved.
  pass : Message → DataLimiter P.State → State × DataLimiter P.State
  unfolding keep_or_stop increment send
  pass m l = keep_or_stop (increment (size_of m) (send m l))

  pass_last : Message → DataLimiter P.State → State × DataLimiter P.State
  unfolding increment send
  pass_last m l = (over_budget, (increment (size_of m) (send m l)).0)

  unfoldable pub handle_message : Message → DataLimiter P.State → State × DataLimiter P.State
  unfolding pass pass_last
  handle_message m l =
      let total = add64 (pos (size_of m)) l.count in
      if l.has_budget
      then (if gtb64 total l.budget
          then (over_budget, l)
          else if over_threshold total l.budget
          then pass_last m l
          else pass m l)
      else pass m l

  unfoldable pub apply : CellularConfig → Time → DataLimiter P.State → State × DataLimiter P.State
  unfolding reset set_budget
  apply conf now l =
      let moved = record l { period_end = ensure_future (day_this_month conf.date now) now } in
      (initial, (reset (set_budget conf.limit conf.defined moved)).0)

  unfoldable pub cleanup_state : DataLimiter P.State → State × DataLimiter P.State
  cleanup_state l = (terminal, record l { out_closed = true })
