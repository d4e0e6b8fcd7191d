-- ===== src/Lib.antt =====
-- go-capnproto2: the wire format, messages and RPC tables of the Cap'n Proto library for Go.
--
-- A message is a set of segments, byte arrays that an arena allocates. Structs and lists in them are
-- reached by 64-bit pointer words. The stream format puts a header of segment sizes before the
-- segments. The RPC layer counts the capabilities that cross a connection in tables. The modules:
--
--   Prelude        shared names; Prelude/Bits has the laws of & and | on bit fields, Prelude/Slices
--                  Go's slices, Prelude/Int the widths of integers, Prelude/Outcome returns and panics
--   Address        address.go: Address, Size, ObjectSize and their arithmetic
--   RawPointer     rawpointer.go: the pointer words; RawPointer/Fields reads them as bit fields
--   Segment        capn.go: the bounds, reads and writes of a Segment
--   Message        mem.go: Message, the arenas, alloc and NewMessage; Message/Framing has the stream
--                  header and Unmarshal, Message/Marshal has Marshal, Message/Streams Decode and
--                  Encode, Message/Packed MarshalPacked; Message/Views has the bytes of the
--                  segments, loaded or not
--   Pointer        pointer.go: Struct, List and Interface as pointers, and their words; Pointer/Near
--                  and Pointer/Read are readPtr of capn.go, without and with far pointers
--   Structs        struct.go: NewStruct, and the fields and bits of a struct
--   Lists          list.go: the list constructors and elements; Lists/Integers has the types of
--                  integers and floats, Lists/Text texts and data, Lists/Root the root pointer
--   Pipelines      capability.go: derived pipelines
--   Packed         internal/packed/packed.go: Pack. Packed/Format is a decoder of whole streams and
--                  Packed/Stream the streams of the documented format, to compare with; Packed/Reader
--                  is the decompressor
--   Queue          internal/queue/queue.go, over the interface Store; Queue/Calls is the store that
--                  internal/fulfiller/fulfiller.go gives it
--   Fulfiller      internal/fulfiller/fulfiller.go: the promise of a struct with its queue of calls;
--                  Fulfiller/Embargo is embargoClient with the goroutine of flushQueue
--   Server         server/server.go: the lookup of methods by sort.Search; Server/Dispatch is the queue
--                  of calls with the dispatch goroutine
--   Rpc            rpc/tables.go: Rpc/Slots (idgen and its slots), Rpc/Exports, Rpc/Embargoes,
--                  Rpc/Imports; Rpc/Refcount is rpc/internal/refcount/refcount.go
--
-- A Go function is a function of the same name in snake_case. One that can fail or panic returns a
-- Result, and one that changes an object takes it and returns it. Addresses and sizes are numbers
-- below 2 ^ 32, with the wrap-around written out; an int32 is the integer that it stands for. The
-- built-in int is taken to have 64 bits. Bytes are numbers, which the code only moves.
--
-- A *Segment is known by its id in the table of its message. The arenas share their bytes with the
-- segments loaded from them; they read their own slice only for a segment that is not loaded, so the
-- sharing is not observable, and it is not modelled. Clients, channels and calls are known by numbers.
-- Loops recur on lists or on the number of rounds left, so no fuel is used. The exceptions are `Read`
-- of the decompressor, whose rounds are bounded by the bytes asked for and left below, and flushQueue
-- and Close of embargoClient, whose rounds are bounded by the length of the queue.
--
-- An Encoder writes to an io.Writer, a parameter (Writer), and its results drop the state that an
-- error leaves. A decompressor reads from an io.Reader, which is a parameter (Source). Its laws
-- (Reliable) are that it gives what is left in order, at least a byte while there is one, and an
-- error at the end; a reader that gives bytes and an error at once is not covered. The methods of a
-- Fulfiller hold its lock, so each is one step. Of embargoClient a step is what is done with the
-- lock held, or the call of the client below; of a server it is a send, a receive or the end of a
-- wait. `Transform` of a struct is a parameter there, and so are the capability table of its
-- message, the copy of a call, and which fulfillers are resolved when `Close` of an embargoClient
-- rejects them.
--
-- Methods of a message are functions that give back the message (M in Message); those that read
-- pointers, Reader in Pointer/Read, give it back with an error too, since segments stay loaded.
--
-- Not modelled: the writes of pointers and the copies of objects between messages (writePtr,
-- copyPointer, copyStruct), the calls of capability.go and the connection of rpc/. Nor are: generated
-- code, the code generator, text output (strings.go) and transports, which are input and output.
pub mod Prelude
pub mod Address
pub mod RawPointer
pub mod Segment
pub mod Message
pub mod Queue
pub mod Rpc
pub mod Pointer
pub mod Structs
pub mod Lists
pub mod Packed
pub mod Pipelines
pub mod Fulfiller
pub mod Server
