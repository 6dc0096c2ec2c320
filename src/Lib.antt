-- ===== src/Lib.antt =====
-- go-memcache is a client for memcached's meta protocol. A call of a verb (get.go, set.go, delete.go,
-- counter.go, update.go, meta.go) builds a command from its options (client.go), picks a server for
-- the key (options.go, client.go), frames the command as bytes (wire.go) and exchanges it over the
-- server's pool of connections (transport.go); the response is read (wire.go) and given its meaning
-- (client.go). A batch (batch.go) does the same for many operations in one exchange per server. Errors
-- (errors.go) may be taken in by the Degrade policy, which reports them to a hook.
--
-- The files, with the code that they are about:
--   Base         Boolean tests, byte lists, lists and integers over the native numbers
--   Std          the decimal and base64 functions of Go's standard library that the code calls
--   Errors       errors.go: error values and the chains that `errors.As` and `errors.Is` walk
--   Types        types.go; Types.Expiration has `ExpiresIn`, over nanoseconds
--   Wire         wire.go: `marshal` in Wire, `readLine` and `asciiFields` in Wire.Line,
--                `readRawResponse` in Wire.Response, `parseResponseFlags` in Wire.Flags
--   Command      the builders and the classification of responses in client.go, a module per command
--   Options      options.go: the configuration and its options; Options.Router is RendezvousRouter
--   Codec        codec.go, over a codec that is a parameter
--   Client       client.go: `New` and `server`; Client.Prepare and Client.Execute are `executeMeta`
--                with `absorb`; Client.State has what the verbs run on
--   Verbs        get.go, set.go, delete.go, counter.go, update.go and meta.go;
--                Verbs.Collections has `GetMany`, `SetMany` and `DeleteMany`, each over a batch
--   Batch        batch.go: Batch.Prepare up to the exchanges, Batch.Resolve after one exchange,
--                Batch.Run the whole
--   Transport    transport.go: a child module per group of functions, and Transport.System with the
--                steps that the callers, connection goroutines and readers of a pool take
--   Fetch        fetch.go: the plan of a fetch and its turns after a read; Fetch.Lead has what is done
--                with a lease
--   Tests        the theorems at concrete inputs
--
-- A Go string or byte slice is a list of numbers below 256, an unsigned integer is a natural number
-- that the parsing keeps below its width, and a signed one is an integer; `wrap_int64` has the
-- wrap-around where the code converts. A method is a function from a state to its result and a state:
-- the state has the world behind the pools, the errors that reached the OnError hook and the goroutines
-- that were started. What the pools do is a parameter, `Network`: an exchange of bytes gives responses,
-- the bytes written and perhaps an error. Time is read from the same parameter.
--
-- Loops over lists are structural. The retry loops of `Update` and `Take` run on the source's own
-- bound of eight attempts; the digits of a number are printed on fuel one above the number, which is
-- more than it has digits.
--
-- A pool of transport.go has its requests and connections in tables, and a pointer is a number in
-- one. Each function is a step from one wait to the next (a receive from a channel, a dial, a read
-- or a write), and the steps of all callers and goroutines come in any order. Inside a step nobody
-- else runs: two critical sections that follow each other without a wait, as those of `status` and
-- `add`, or of a teardown and its `detach`, are one, and so are the two swaps with which a caller
-- gives up a request. The moment of a step is its argument.
--
-- Not modelled: the step from a pool to `Network`, which is the type of its `exchange`; the write
-- buffer that a connection keeps between flushes, and SetNoDelay; the loop of Fetch with its waits
-- and the flights that merge the callers of a process, and FetchMany, of fetch.go; the sweep of
-- Close over the pools; the operands of error messages; the order in which Go's map iteration finds
-- the first of two refused durations. The groups of a batch run in parallel in the source and in
-- the order of the servers here. `TrimSpace` is that of ASCII, and int has 64 bits.
mod Base
pub mod Std
pub mod Errors
pub mod Types
pub mod Wire
pub mod Command
pub mod Options
pub mod Codec
pub mod Client
pub mod Verbs
pub mod Batch
pub mod Fetch
pub mod Transport
pub mod Tests
