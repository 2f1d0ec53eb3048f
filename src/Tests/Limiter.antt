-- ===== src/Tests/Limiter.antt =====
-- The limiter at inputs like those of message/limiter_test.go.
use auklet_client_c.Message.Persistor.MemPersistor
use auklet_client_c.Prelude.{
  ℕ, ◌+◌, ◌*◌, ◌≡◌, refl, inl, inr, true, false, Option, none, some, List, [], ◌∷◌, ◌++◌, map,
  arith, replicate, if◌then◌else◌,
}
use auklet_client_c.Prelude.Int.{pos, ◌+ℤ◌, ◌*ℤ◌}
use auklet_client_c.Prelude.Int64.{add64, mul64, quot64}
use auklet_client_c.Clock.{before, days_in, date, add_month, calendar_date}
use auklet_client_c.Broker.Message.{Message, event}
use auklet_client_c.Api.DataLimit.{CellularConfig}
use auklet_client_c.Message.Persistor.{Persistor, Doc}
use auklet_client_c.Message.Persistor.FilePersistor.{
  File, Fault, fine, no_create, no_write, save, load, file_persistor,
}
use auklet_client_c.Message.Limiter.State.{
  DataLimiter, terminal, under_budget, over_budget, encode, ensure_future, day_this_month,
  over_threshold, handle_message,
}
use auklet_client_c.Message.Limiter.Period.{IsFirst, midnight, ensure_future-IsFirst}
use auklet_client_c.Message.Limiter.Run.{
  Event, expired, received, closed, configured, serve_from, serve, step, new_data_limiter,
}
use auklet_client_c.Message.Limiter.Budget.{Budgeted, admit}
use auklet_client_c.Message.Limiter.Admission.{SentWithin, serve-within, serve_admits}
use auklet_client_c.Message.Limiter.Unlimited.{serve_unlimited}
use auklet_client_c.Message.Limiter.Periods.{step-expired, step-configured}
use auklet_client_c.Message.Limiter.Shutdown.{serve-closed}
use auklet_client_c.Message.Limiter.Recovery.{IsRestored, IsReliable, IsStored, restart-serve}
use auklet_client_c.Message.Limiter.Overflow.{limit_overflow}

-- TestEnsureFuture
ensure_future_test_1 :
    let now = calendar_date 2000 1 1 1 in
    ensure_future (day_this_month (pos 1) now) now ≡ calendar_date 2000 2 1 0
unfolding ensure_future day_this_month add_month date days_in before
ensure_future_test_1 = refl

ensure_future_test_2 :
    let now = calendar_date 2000 1 1 0 in
    ensure_future (day_this_month (pos 15) now) now ≡ calendar_date 2000 1 15 0
unfolding ensure_future day_this_month add_month date days_in before
ensure_future_test_2 = refl

-- The last of January and a month is in March.
add_month_test : add_month (calendar_date 2019 1 31 0) ≡ calendar_date 2019 3 3 0
unfolding add_month date days_in
add_month_test = refl

-- Day 0 is the last of the month before.
date_test : date (calendar_date 2000 3 1 0).month (pos 0) 7 ≡ calendar_date 2000 2 29 7
unfolding date days_in
date_test = refl

abbrev of_size : ℕ → Message
of_size n = record { error = ""; topic = event; bytes = replicate n 0; path = none; has_fs = false }

-- A file on which every call works.
abbrev pub working : Persistor
working = record {
  State = Option (List Doc);
  save =
      λ s d. let (f, saved) = save (record { contents = s; faults = [] }) d in (f.contents, saved);
  load = λ s. load (record { contents = s; faults = [] });
}

working-saves : (s : Option (List Doc)) (d : Doc) → (working.save s d).1 ≡ true
unfolding save
working-saves s d = refl

working-IsReliable : IsReliable working
unfolding save load
working-IsReliable = record { saves = working-saves; loads = λ s d. refl }

abbrev limiter : {S : Type 0} → S → ℕ → ℕ → DataLimiter S
limiter s b c = record {
  budget = pos b;
  has_budget = true;
  count = pos c;
  period_end = calendar_date 2019 1 12 0;
  period_timer = none;
  store = s;
  out = [];
  out_closed = false;
}

abbrev faulty : List Fault → File
faulty fs = record { contents = none; faults = fs }

abbrev ten : List Message
ten = of_size 10 ∷ of_size 10 ∷ of_size 10 ∷ of_size 2 ∷ of_size 1 ∷ []

limiter-Budgeted : Budgeted (limiter (faulty (fine ∷ no_write ∷ [])) 32 0) 32 0
limiter-Budgeted = record { has = refl; budget_is = refl; count_is = refl }

-- The second save fails, so nothing follows the second message.
save_fails :
    (serve file_persistor (map received ten) (limiter (faulty (fine ∷ no_write ∷ [])) 32 0)).1.out
    ≡ of_size 10 ∷ of_size 10 ∷ []
unfolding serve step add64 ◌+ℤ◌ mul64 ◌*ℤ◌ over_threshold quot64 save encode
save_fails = refl

-- TestHandleMessage
handle_message_test_2 : (handle_message working (of_size 10) (limiter none 100 85)).0 ≡ over_budget
unfolding handle_message add64 ◌+ℤ◌ mul64 ◌*ℤ◌ over_threshold quot64 save encode
handle_message_test_2 = refl

ensure_future-IsFirst_example :
    (k : ℕ) × IsFirst
      (calendar_date 2018 11 5 0)
      (calendar_date 2019 1 6 0)
      k
      (ensure_future (calendar_date 2018 11 5 0) (calendar_date 2019 1 6 0))
ensure_future-IsFirst_example =
    ensure_future-IsFirst (calendar_date 2018 11 5 0) (calendar_date 2019 1 6 0)

serve-within_example :
    SentWithin file_persistor 32 0 []
      (serve file_persistor (map received ten) (limiter (faulty (fine ∷ no_write ∷ [])) 32 0)).1
serve-within_example =
    serve-within file_persistor 32 0 ten (limiter (faulty (fine ∷ no_write ∷ [])) 32 0)
      limiter-Budgeted (omega arith) (omega arith)

serve_admits_example :
    (serve working (map received ten) (limiter none 32 0)).1.out ≡ [] ++ admit 32 0 ten
serve_admits_example =
    serve_admits working working-saves 32 (omega arith) ten 0 (limiter none 32 0)
      (record { has = refl; budget_is = refl; count_is = refl }) (omega arith) (omega arith)

admit_test : admit 32 0 ten ≡ of_size 10 ∷ of_size 10 ∷ of_size 10 ∷ []
unfolding admit
admit_test = refl

abbrev unlimited : DataLimiter File
unlimited = record (limiter (faulty (no_create ∷ [])) 0 7) { has_budget = false }

serve_unlimited_example :
    let r = serve file_persistor (map received ten) unlimited in
    (r.0 ≡ under_budget) × (r.1.out ≡ [] ++ ten)
serve_unlimited_example = serve_unlimited file_persistor ten unlimited refl

step-expired_example :
    let r = step working (expired (calendar_date 2019 1 12 1)) over_budget (limiter none 32 31) in
    (r.0 ≡ under_budget)
    × Budgeted r.1 32 0
    × (before r.1.period_end (calendar_date 2019 1 12 1) ≡ false)
    × (r.1.out ≡ [])
step-expired_example =
    step-expired working 32 31 (calendar_date 2019 1 12 1) over_budget (limiter none 32 31)
      (inr refl) (record { has = refl; budget_is = refl; count_is = refl }) (omega arith)

abbrev config : ℕ → CellularConfig
config n = record { date = pos 5; defined = true; limit = pos n }

step-configured_example :
    let now = calendar_date 2019 1 6 0 in
    let r = step working (configured (config 3) now) over_budget (limiter none 32 31) in
    (r.0 ≡ under_budget)
    × Budgeted r.1 (1000000 * 3) 0
    × (r.1.period_end ≡ (
        if before (midnight now.month 4) now
        then midnight (now.month + 1) 4
        else midnight now.month 4))
    × (r.1.out ≡ [])
step-configured_example =
    step-configured working 3 4 (config 3) (calendar_date 2019 1 6 0) over_budget
      (limiter none 32 31) (inr refl) refl refl refl (omega arith) (omega arith)

abbrev busy : List Event
busy = received (of_size 3) ∷ expired (calendar_date 2019 1 12 1) ∷ received (of_size 4) ∷ []

serve-closed_example :
    serve working (busy ++ closed ∷ busy) (limiter none 32 0)
    ≡ (terminal, record (serve working busy (limiter none 32 0)).1 { out_closed = true })
serve-closed_example = serve-closed working busy busy (limiter none 32 0) refl

abbrev stored : DataLimiter (Option (List Doc))
stored = limiter (some (encode (limiter {S = Option (List Doc)} none 32 0) ∷ [])) 32 0

stored-IsStored : IsStored working stored
unfolding load encode
stored-IsStored = refl

restart-serve_example :
    IsRestored working
      (new_data_limiter working (serve working busy stored).1.store)
      (serve working busy stored).1
restart-serve_example = restart-serve working working-IsReliable busy stored stored-IsStored

limit_overflow_example :
    (serve_from working
      (configured (config 9223372036855) (calendar_date 2019 1 6 0) ∷ map received ten)
      under_budget
      (limiter none 32 0)).1.out
    ≡ []
limit_overflow_example =
    limit_overflow working 9223372036855 ten (config 9223372036855) (calendar_date 2019 1 6 0)
      under_budget (limiter none 32 0) (inl refl) refl refl (omega arith) (omega arith)
      (omega arith)

-- The buffer gives the oldest text, and is empty then.
mem_persistor_test :
    let d = Doc.object (some (pos 32)) none (some (pos 0)) none in
    let e = Doc.object (some (pos 32)) none (some (pos 5)) none in
    MemPersistor.load (MemPersistor.save (MemPersistor.save [] d) e) ≡ ([], some d)
unfolding MemPersistor.load MemPersistor.save
mem_persistor_test = refl
