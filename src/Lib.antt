-- ===== src/Lib.antt =====
-- ibapi, a client of the TWS and IB Gateway API for Go: its protocol and its client.
--
-- A client (`IbClient`, client.go) connects to a server, shakes hands with it, sends requests and
-- delivers the messages that come back. A request checks the version of the server and is put
-- together by `makeMsgBytes` (utils.go): four bytes of size, then each field with a NUL behind it. A
-- goroutine writes what is queued; another one reads the socket with a scanner that `scanFields`
-- (utils.go) splits; a third one hands each message to the decoder (`ibDecoder`, decoder.go), which
-- finds the function for the message's id, reads the fields with a `MsgBuffer` (utils.go), and calls
-- the wrapper of the application (`IbWrapper`, wrapper.go).
--
-- The files:
--   Common, Common/Tests, Common/Lists, Common/Int: Boolean tests, lists with native lengths,
--     integers; an int64 is an integer with a bound (IsInt64), and additions that wrap are written out.
--   Wire/Decimal: `strconv.AppendInt` and `strconv.ParseInt` at base 10 and 64 bits. Wire/Float: the
--     float64 values, which are a parameter with what the code asks of `strconv` about them.
--   Wire/Encode: `makeMsgBytes` and `handleEmpty`. Wire/Frame: `scanFields`, `splitMsgBytes` and the
--     loop of `bufio.Scanner`. The loop over the buffered bytes goes by fuel, the length of the
--     buffer: a token takes four bytes at least, so the fuel does not run out.
--   Buffer: `MsgBuffer` and its readers, as a state monad whose panics are values; Buffer/Items the
--     fields that a server prints, Buffer/RoundTrip what the readers return for them,
--     Buffer/Written for what `makeMsgBytes` writes.
--   Data: the structs of contract.go, common.go and execution.go that messages carry, the orders of
--     order.go (Data/Order) and the conditions of orderCondition.go (Data/Condition).
--   Decoder: `ibDecoder`, its table and `interpret`; its children hold the functions of the table, one
--     for each message, by theme (Account, Ticks, Greeks, History, Reference, Orders,
--     Contracts, OpenOrder, CompletedOrder, and OrderFields with what the last two share);
--     Decoder/Wrapper is the interface `IbWrapper` as a data type of calls, Decoder/Read the loops of
--     the decoder, Decoder/Dispatch and Decoder/Messages the theorems on whole messages.
--   Client/State: `IbClient` and `IbConnection` (connection.go) as records, with channels, `sync.Once`
--     and the wait group as values. Client/Lifecycle: one function for each operation of its life. A
--     call ends, panics or waits (Res). Client/Handshake: `HandShake` over the events that it selects.
--     Client/Workers: the goroutines that receive and decode, as turns in any order.
--     Client/Teardown, Client/Sending, Client/Handshake/Outcomes, Client/Workers/Order: the theorems.
--   Request: the shared body of the requests; Request/Account, Orders, Market, News, Groups, Options,
--     Data, History, Details: the requests; Request/PlaceOrder: `PlaceOrder`, its guards and
--     the fields of its message, whose texts Fields/Texts lists; Request/Sent: what reaches the
--     server; Request/Versions: the version guards.
--   Examples: the concrete runs.
--
-- A decoder has the table that `setmsgID2process` builds; the clock that `wrapUpdateAccountTime` asks
-- is a parameter. The `switch` of `PlaceOrder` is a list of cases, of which the first one that holds is
-- run; a case that ends in `fallthrough` has the body of the next one in its own. The methods of the
-- order conditions have value receivers: what they change is a copy, which the callers throw
-- away. A handshake that gives up waits for the receiver, which leaves only if the channel has room
-- for what it has read. A decimal number has as many rounds of fuel as its value and one more, which
-- is at least its number of digits.
--
-- Not modelled: a nil order, contract or subscription, which panics; the goroutine that writes
-- requests, the end of the receiver, and `LoopUntilDone`; the reflection of `InitDefault`; the
-- String methods, the logging and the default wrapper, which only logs; what the scanner and the
-- buffered writer count on the connection. The traffic of a session is given as a list of events,
-- and what the socket answers (a dial, a write, a close) as an argument.
pub mod Common
pub mod Wire
pub mod Buffer
pub mod Data
pub mod Decoder
pub mod Client
pub mod Request
pub mod Examples
