-- ===== src/Lib.antt =====
-- The Auklet client for C: a wrapper program that runs an instrumented application, reads what the
-- agent in it sends, and passes it on to a broker within a data budget.
--
-- The way of a message: the servers of `Agent` read it from the application, the converter of `Schema`
-- makes a broker message of it and stores it as a file through `Broker/Store`, the limiter of
-- `Message` lets it pass or drops it, and the producer of `Broker/Mqtt` publishes it and removes
-- the file. Where streams meet, a merger of `Merge` stands. `Client` starts all of it.
--
-- Parts and files (source paths from the repository's root):
-- + Clock: what the limiter uses of Go's package `time`, in one fixed zone.
-- + Message/Limiter (message/limiter.go): `State` has the fields and the operations, `Run` the states
--   that wait, the loop `serve` and `NewDataLimiter`. What `select` takes is a list of events, in any
--   order; a loop that has no more events waits. The store is a parameter, `Message/Persistor`, and
--   `Message/Persistor/FilePersistor` and `Message/Persistor/MemPersistor` are those of
--   message/persistor.go.
-- + Agent/Server, Agent/DataPoint, Agent/Requester (agent/server.go, agent/datapoint.go,
--   agent/requester.go): the streams are lists of what the calls of the JSON decoder give.
-- + Fsutil (fsutil/writefile.go): the filesystem is a record of the calls that the program makes, `Fs`,
--   with what is relied on in `IsLawful`; Tests/MemoryFs is one in memory. A generated file name
--   is the pair of the process id and the counter.
-- + Broker/Message, Broker/Store (broker/message.go): messages as files, `create_message` is
--   `CreateMessage`, `load` the loader's stream. The limit that a channel hands out is a field.
-- + Broker/Mqtt (broker/mqtt.go): `new_config`, `new_mqtt_producer`, and `serve`, the loop over the
--   messages of its input. The client of the library and the backend's calls, `BackendApi`, are
--   parameters.
-- + Api (api/api.go): `Api/Http` has what the calls share, `Api/Backend` the calls, `Api/DataLimit` and
--   `Api/Credentials` the data and how JSON is read into them. The network and the parsers are
--   the parameter `Services`.
-- + Json: the values and the decoding into structs of Go's `encoding/json`. A text is modelled by
--   what it is parsed to. `generic` is the decoding into an empty interface. Member names are matched exactly.
-- + Merge (message/merge.go, agent/merge.go): the goroutines' moves in any order.
-- + Schema (schema/schema.go, schema/convert.go): `Schema/Payload` has the payload types, `Schema/Convert`
--   the conversion, `Schema/Convert/Serve` the loop. The app, the clock, the new ids and the metrics
--   are what each call finds, the record `Ambient`; the encoders are the parameter `Codec`.
-- + App (app/exec.go, app/socketpair.go): `connect`, `run` and `check_sum` over the parameter `System`.
-- + Client (cmd/client/main.go): the command line's choice, the prefix of the files, the logs that are
--   discarded, and `run_client`, in which the pipeline that is served is a parameter; `Client/Startup`
--   has `newclient`, which fills the interface of `NewConfig` with the calls of `Api`; `Client/Polling`
--   is `pollConfig`, with its three channels and their readers; `Client/Licenses` what is printed of
--   the licenses.
-- + Client/Pipeline (the pipeline of `client.run`): its goroutines as they take turns, `move`, in any
--   order, over one filesystem. A turn is what one goroutine does between two operations of a channel:
--   the converter converts and stores a message, the loader lists the directory or loads a file, the
--   limiter sees an event, the producer publishes a message and removes its file. What a channel
--   was sent and how much of it was received is a `Client/Channel`, without a bound on what waits in
--   it, so that the turns include those of the program and of its mergers' buffers. The new limits
--   of `pollConfig` come at any turn. The limiter's input ends when the converter, the loader and the
--   requester have closed their outputs and the merger has passed all on: `converter_closed`,
--   `loader_closed`, `is_ended`.
-- + Client/Serial (`serial` and `dumper`): the pipelines to a device and to the terminal, with two
--   mergers whose moves are given. The device is a file of a filesystem of its own.
-- + Config (config/config.go) and Device (device/device.go): the environment, the network rates, the
--   hash of the interfaces' addresses, and in `Device/Metrics` the metrics and the public address.
--
-- Integers of Go are `ℤ` with wrapping at 64 bits (Prelude/Int64), lengths are natural numbers, and
-- the unsigned counters of Device wrap at 64 bits. Fuel is used in `ensureFuture`, one round more than
-- the months between the two dates, of which each round takes one; in `time.Date`, one for each day,
-- of which each round takes a month's; and in Prelude/Decimal, one more than the number, which each
-- round divides by ten.
--
-- Not modelled: what is logged for information, the usage that the library of flags prints, the version
-- that is set at build time, and the text of JSON, of which the decoded values are modelled. The
-- URLs of requests are taken to be well formed.
pub mod Prelude
pub mod Clock
pub mod Fsutil
pub mod Json
pub mod Broker
pub mod Api
pub mod Message
pub mod Merge
pub mod Agent
pub mod Schema
pub mod Config
pub mod App
pub mod Client
pub mod Device
mod Tests
