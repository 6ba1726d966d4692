-- ===== src/Lib.antt =====
-- A verification library for n2k: NMEA 2000 messages over a CAN bus, in Go.
--
-- A CAN frame comes from an endpoint to the CAN adapter, which reads the parameter group, source,
-- destination and priority from the frame's identifier. A group is a single frame, or a fast
-- packet of up to 32 frames, which the adapter puts together; the whole packet goes to the packet
-- handler, whose decoders read its fields from a data stream of bits. The other way, encoders
-- write the fields into a stream, and the adapter cuts the payload into frames and hands them to
-- the endpoint's writer. A node is a device of its own: it claims an address, answers requests and
-- keeps a table of the other devices, from the groups that it subscribes to. The service joins
-- them: it queues the frames of its endpoint, takes them through adapter, decoder and callbacks on
-- one goroutine, and measures the way.
--
-- Files:
--   Converter     internal/converter/converter.go, the identifiers: CanIDFromData and its
--                 variants, DecodeCanID. Converter/CanId has the laws. Converter/Raw is the RAW
--                 text: CanFrameFromRaw and RawFromCanFrame with the parts of strings, strconv and
--                 fmt that they use (Digits, Line the way back, Frames the frames of a long line).
--   Pgn           internal/pgn/pgn.go and fastbits_generated.go: IsFast with its table,
--                 IsProprietaryPGN.
--   Packet        internal/pkt/pkt.go: NewPacket, Valid, GetSeqFrame; MessageInfo of
--                 pkg/pgn/types_generated.go. Packet/Handler is packetstruct.go and unknownpgn.go
--                 beside it, with the generated decoders as a parameter, and Publisher.Write of
--                 internal/pgn/write.go; Packet/Unknown what the handler gives on.
--   Adapter       internal/adapter/canadapter. Adapter/Sequence is sequence.go,
--                 Adapter/MultiBuilder multibuilder.go and Adapter/CanAdapter canadapter.go:
--                 HandleMessage is `handle_message` (its parts `handle_packet` and `assemble`),
--                 WritePgn `write_pgn`, sendFast `send_fast` with the loops `build_frames` and
--                 `fill`, sendSingle `send_single`. Adapter/Window says which bytes of a payload a
--                 frame carries.
--   DataStream    internal/pgn/datastream.go, readdatastream.go and writedatastream.go: the
--                 cursor, getNumberRaw (`get_number_raw`, with its loop `get_loop`) and
--                 putNumberRaw (`put_number_raw`, `put_loop`). DataStream/Value has the number
--                 that the bytes of a stream are, Get and Put what the loops compute of it,
--                 RoundTrip a list of fields written and read. DataStream/Binary has
--                 readBinaryData and the STRING_LAU of readStringWithLengthAndControl and of
--                 pkg/pgn/stringlau.go, Lau their round trip; DataStream/Bytes writeBinary,
--                 writeStringFix, writeStringLau and readFixedString (Fixed and Lau their round
--                 trips); DataStream/Raw is ReadRaw and WriteRaw, with Raw/Nullable on unsigned
--                 fields and Raw/Signed on signed ones; DataStream/Terminated is
--                 writeStringWithLength and readStringWithLength (Longer: what is read of what was
--                 written).
--   Endpoint      pkg/endpoint/socketcanendpoint, in Endpoint/SocketCan: WriteFrame's select
--                 (`offer`), the writing goroutine (`check_end`, `look`, `write_queued_frame`,
--                 `requeue`), Run, Close and the contexts as steps. Retry is the delays, Sound
--                 what the queues hold (Reachable: in every state), Balance and Ordered the order
--                 of the frames, Sending when they are written.
--   Subscribe     internal/subscribe/subscribe.go: SubscribeManager and its methods, with what
--                 Go's reflection says of types and callbacks as data. Subscribe/Registry has the
--                 invariant, Reachable the steps that keep it, Cancel, Stale and Calls what
--                 Unsubscribe and HandleStruct do.
--   Node          pkg/node/node.go: the node's record, ClaimAddress, the setters, `write` and
--                 setMessageInfo. Node/Name is computeName and its variants (Fields: the NAME as a
--                 sum); Node/Devices the known devices (Updates, Available, and the invariant in
--                 Table and Observed); Node/Claims processIsoAddressClaim,
--                 processIsoCommandedAddress and sendAddressClaim; Node/Messages the groups and
--                 builders; Node/Requests processIsoRequest and its like; Node/Groups the command,
--                 write and read group functions; Node/Loop the loop `process`, a step at a time.
--                 Node/Sound is the invariant, Sent what is sent, Arbitration two nodes with one
--                 address, Turns the loop's steps of itself, Settles a claim that succeeds,
--                 Answers and Lists the answers.
--   Service       internal/n2kinternal. Service/Queue is the messageQueue of n2kinternal.go
--                 (Compact its slots, Fifo the queue as a list, Wakeup producers and processor a
--                 step at a time); Service/Metrics processing_metrics.go (Top the groups of the
--                 log line, Totals the sums); Service/Handling HandleMessage,
--                 processQueuedMessage, the processor's loop and the way of one message (Kept,
--                 Enqueue, Pipeline, Ordered, Behind, Dropped, Stale what they do);
--                 Service/Lifecycle Start, Stop, UpdateEndpoint and the goroutines of a run as
--                 steps (Live, Quiet, Stopped).
--   Prelude       shared names, Go's casts and shifts, laws of bits and powers of two, and
--                 `Fault`, code that may panic.
--
-- Conventions. Machine integers are natural numbers, cut by `u8` to `u64` where the Go code can
-- wrap. A panic is `none` (`Fault`), or `panic` for a stream. Code that changes an object returns
-- the new one. Maps are functions of their keys. A frame's eight bytes are a list, whose length is
-- a hypothesis. The time of decoding is an argument. A node's loop takes one step at a time: its
-- top, either send, and one arm of its select; a handler is a single step, and the owner's calls
-- come in between. The provider's answers, the times and the conversions of floats are arguments.
-- The loops of the stream run on fuel: each round takes a bit at least, so as many rounds as bits
-- are enough, and the theorems on them show that the fuel does not run out. The frames of a RAW
-- line have as many rounds as bytes that are left, and the decimal digits of a 64-bit number 20
-- rounds. The service's times are nanoseconds of a monotonic clock, whose readings are arguments.
-- What the CAN channel below the SocketCAN endpoint answers is left open.
--
-- Not modelled: logging; the mutex on the writer; that packets share their bytes; the timings that
-- a callback observer gets; the texts of errors; readVariableDataWithSpec,
-- readGroupFunctionFieldValue and the floating-point fields; the generated codecs; of the node its
-- subscriptions, the bound of its queue, and two threads inside one handler; of the service its
-- Wait and CurrentRun, the lag of the outbound queue and the passing on of subscriptions and
-- writes; the public service, which wires the parts; the endpoints other than SocketCAN; the
-- commands.
pub mod Prelude
pub mod Converter
pub mod Pgn
pub mod Packet
pub mod Adapter
pub mod DataStream
pub mod Endpoint
pub mod Node
pub mod Service
pub mod Subscribe
