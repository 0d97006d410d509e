-- ===== src/Lib.antt =====
-- A verification of dicey, the C library in dicey-sys/libdicey: its wire format, the builders of
-- messages, signatures, its hash tables, and the queues of its client and its server.
--
-- dicey sends packets between a client and a server. A packet is a HELLO, a BYE or a message; a
-- message has an operation, a path, a selector (a trait and an element) and, but for GET, a value.
-- A sender turns an argument (`struct dicey_arg`) into the bytes of a value and puts a header, the
-- path and the selector before it. A receiver cuts a packet off the bytes that have arrived,
-- validates the value in it, and reads values in place through iterators. The layers call each other
-- from the top down: packets, payloads, values, writers and probes, views. A program makes messages
-- with builders, which end in the writer of messages. A server holds the value of a request against
-- the signature of the element, keeps the request with the others of the client until it is
-- answered, and gives work to other threads through a queue. It keeps its clients in slots, and for
-- each one a buffer of the bytes that arrive and a set of what the client subscribes to, which is a
-- hash table. A client keeps a list of the tasks that wait for a response.
--
-- The files, and the code that each is about (paths within dicey-sys/libdicey):
--
--   Prelude      numbers, lists, arrays and rings, the error codes (include/dicey/core/errors.h),
--                results, checked sums (src/sup/util.h), little-endian bytes
--   Memory       writes into a block of memory (src/sup/unsafe.c)
--   View         reading: `dicey_view_*` (src/sup/view-ops.c), `dutl_zstring_size` (src/sup/util.c)
--   ViewMut      writing: `dicey_view_mut_*` (src/sup/view-ops.c)
--   Types        the value types and their sizes (include/dicey/core/type.h, src/wirefmt/value.c,
--                `type_size` of src/wirefmt/dtf/value-probe.c)
--   Writer       `dtf_bytes_writer_*` (src/wirefmt/dtf/writer.c). Writer/Effect says what a write to
--                any writer does, in one form for the buffer and for the counting writer
--   Arg          `struct dicey_arg` (include/dicey/core/builders.h). Arg/Encoding is the wire format
--                of values as a plain function, and the conditions under which it can hold a value. It
--                is that of docs/source/dtf but for an error without a message, which the code ends
--                with an empty string, and for the rules on `bool`, paths and selectors, which the
--                code does not check;
--                Arg/Copies makes copies of arguments (src/wirefmt/packet-args.c)
--   ValueWrite   `dtf_value_estimate_size` and `dtf_value_write` (src/wirefmt/dtf/value-write.c)
--   ValueProbe   `dtf_value_probe` and `dtf_value_probe_as` (src/wirefmt/dtf/value-probe.c)
--   Value        iterators and getters (src/wirefmt/value.c)
--   Validate     `validate_value` (src/wirefmt/packet.c)
--   ArgFromValue  arguments from received values (src/wirefmt/packet-args.c)
--   Payload      sizes, writing, loading and taking apart of payloads (src/wirefmt/dtf/payload.c,
--                payload.h, to.h). Payload/Sizes has the wire format of messages as a plain function
--   Packet       packets: parsing, making, forwarding and the validating load
--                (src/wirefmt/packet.c)
--   Typedescr    the parser of type descriptors (src/wirefmt/typedescr.c)
--   Signature    values against the signatures of elements (src/wirefmt/value-validate.c)
--   ValueBuilder building values piece by piece (src/wirefmt/builders.c)
--   MessageBuilder  building messages (src/wirefmt/builders.c)
--   PendingReqs  the requests of a client that wait for a response (src/ipc/server/pending-reqs.c)
--   Queue        the queue between threads (src/ipc/queue.c)
--   Hashtable    tables with string keys (src/sup/hashtable.c). Hashtable/Find has the invariant, and
--                Hashtable/Tables a set as the update of a finite map
--   Hashset      sets of strings (src/sup/hashset.c)
--   ClientData   the slots and the subscriptions of clients (src/ipc/server/client-data.c)
--   Chunk        the buffer of bytes that arrive (src/ipc/chunk.c)
--   WaitingList  the tasks that wait for a response (src/ipc/client/waiting-list.c, src/sup/array.inc)
--   TaskList     the list of waiting tasks of a task loop (src/ipc/tasks/list.c). TaskList/Expiry
--                tells in nanoseconds when a task expires
--   Tests        samples, and the theorems at them
--
-- A C function that returns a negative `enum dicey_error` returns `err`, one that returns a size
-- returns `ok` of it with the views and the memory that it has changed. A view for reading is the
-- bytes that are left in it, or a NULL pointer with a length; a view for writing is an offset and a
-- size in a memory that is passed along. A union with its tag is a constructor. The answer of
-- `calloc` and `malloc` is a function of the size that is asked for, and a parameter.
--
-- Numbers are those of a little-endian machine of 64 bits: `size_t` and `ptrdiff_t` have 64 bits,
-- and casts to `uint32_t` and `uint16_t` are written out. Floats and signed integers are their bit
-- patterns, which the code only copies. Packed structs are read at the offsets of to.h.
--
-- Fuel: in the wire format the validation of a received value is the one loop without a bound of
-- its own. Each round reads one element, so that one more unit than the value has bytes is enough, if
-- every element takes a byte. The load of a packet that a sender has written takes fuel of the length
-- of the packet. Where the loop of the C code does not end, the run is `out_of_fuel` for every fuel.
--
-- The parser of type descriptors is recursive, with fuel of twice the length of the text and one
-- more, and so is the check of a value against a type. The search for a pending request halves its
-- interval: more fuel than slots is enough while the queue is not full, but where it meets a hole
-- with the number that it looks for.
--
-- The search of a bucket takes as many rounds as the table has cells and one more, which is enough
-- since the links of a bucket only go forward. A set that rehashes sets every key again, and each
-- nested call has fewer primes left: their number is the fuel.
--
-- The loop that makes room in a chunk grows it by half in each round, so that as much fuel as there
-- are bytes in the end is enough.
--
-- What libuv does is not modelled: a call of the queue is one step up to its first wait, and a step
-- from there on.
--
-- The assertions of dicey_packet_bye, of dicey_packet_message and of the start of an array on their
-- arguments are outcomes of their own (`none`). Assertions that a pointer is not NULL are left out.
--
-- Not modelled: text for people (names of types, operations and errors), traces, UUID text, which
-- memory is given back to the allocator, the registry of the server, and the processes of client and
-- server on top of all this, which call libuv.
pub mod Tests
pub mod Prelude
pub mod Memory
pub mod View
pub mod ViewMut
pub mod Types
pub mod Writer
pub mod Arg
pub mod ValueWrite
pub mod ValueBuilder
pub mod MessageBuilder
pub mod ValueProbe
pub mod Value
pub mod Validate
pub mod ArgFromValue
pub mod Hashtable
pub mod Hashset
pub mod ClientData
pub mod Chunk
pub mod WaitingList
pub mod Payload
pub mod Packet
pub mod Typedescr
pub mod TaskList
pub mod Signature
pub mod PendingReqs
pub mod Queue
