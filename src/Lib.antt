-- ===== src/Lib.antt =====
-- NetMirage emulates a network: `netmirage-core` reads a topology in GraphML, plans the routes between
-- its clients, shares out their addresses, and builds a network of namespaces and links in the kernel;
-- `netmirage-edge` connects a host to it. This library models the parts of the C code that compute.
--
-- Parts and files (each source path is below the repository's root):
-- Prelude: numbers, Boolean tests, lists, bits and text, shared by the parts. The bytes of a C string
--   are a list; `strtoul` on decimal digits is written out (Prelude/Text).
-- Ip: src/common/lib/ip.c and src/common/inc/ip.h. Order is the byte order of a little-endian host
--   (`ntohl`, `htonl`); Subnet has `ip4SubnetMask`, `ip4HostMask`, `ip4SubnetStart`, `ip4SubnetEnd`,
--   `ip4SubnetSize`, `ip4SubnetHasReserved` and `ip4SubnetsOverlap`; AddrIter has `ip4NewIter`,
--   `ip4IterNext` and `ip4IterAddr`; Fragment has `ip4FragmentSubnet`, `ip4FragIterNext` and
--   `ip4FragIterSubnet`; Mac has `macNextAddr` and `macNextAddrs`.
-- Mem: src/common/lib/mem.c and src/common/inc/mem.h. Checked has the checked arithmetic and the
--   allocation functions, Flex the flexible buffers.
-- Graphml: src/netmirage-core/graphml.c, graphml.h and the records of topology.h. Start is
--   `graphStartElement`, Finish is `graphEndElement` and `graphCharacters`, Events is the
--   initialisation and a whole parse (`gmlParseFile`, `gmlParseMemory`). The parser keeps the text of a
--   data element in a flexible buffer of Mem.
-- Route: src/netmirage-core/routeplanner.c. Route has the planner, its cells and `rpGetRoute`, Layout
--   the block order of the matrix, Chunk the processing of blocks, chunks and work units, and Plan
--   `rpPlanRoutes`. The planner does its sums on `float`, which is an interface (`Floats`).
-- Setup: src/netmirage-core/setup.c, the client of the GraphML parser: `gmlContext`, `gmlNameToState`,
--   `gmlAddNode`, `gmlOnFinishedNodes` and `gmlAddLink`. It uses Ip for addresses, Route for weights,
--   and sends orders to the work queue, whose return codes are a parameter. Setup/Edges is
--   `setupConfigure`, which shares out subnets to the edge nodes; Setup/Clients is `gmlNextEdge` and
--   `gmlNextClientSubnet`, which share out each edge node's subnet to its clients.
-- Work: src/netmirage-core/work.c and work.h. Work has the orders and responses as data; Pipe is
--   `writeAll` and `readAll`, Wire `writeOrderToWorkplace` and `readOrder`; Child is the child process
--   (`childProcess`), for which the functions of worker.c and what the log prints in a turn are an
--   interface (`Worker`); Master is the
--   state of the main process with `sendOrder`, `waitForResponse` and what `responseThread` does, with
--   Master/Logs for log messages and Master/Calls for the calls that the main thread makes (a call that
--   waits is in two halves); Pool lets the threads and the child processes take turns, `workJoin`
--   among them, Pool/History starts from `workInit`, and Pool/Carried follows the orders.
-- Netlink: src/common/lib/netlink.c, the construction of messages and attributes (`nlInitMessage`,
--   `nlBufferAppend`, `nlPushAttr`, `nlPopAttr`) in a flexible buffer of Mem; Netlink/Responses is what
--   `nlSendMessage` does with the datagrams that `recvmsg` gives.
-- Cache: src/netmirage-core/netcache.c, the cache of open namespaces: `ncNewCache`, `ncOpenNamespace`.
--   The functions on contexts are an interface (`Namespaces`).
--
-- A function that may end the process or do something undefined returns an `Outcome`: `ok`, `abort` or
-- `fault`. State that the C code changes in place is passed in and returned. Unsigned integers are
-- natural numbers with their wrap-around written out.
--
-- What the code takes from elsewhere is a parameter: whether memory is available and what fresh memory
-- holds (`Allocator`), the events and the result of libxml, the client's callbacks (`Callbacks`), the
-- operations on `float` (`Floats`), how many bytes each `write` and `read` moves, the memory image of an
-- order (`Layout`), the rounded number of clients up to an edge node, the number of processors, and the
-- thread pool (what it makes of the matrix when work units are pushed, or an error code). Of the pool it
-- is assumed in one place, by name, that a pool of one thread processes units in the order in which they
-- were added, as GLib documents (`HasOneThread`).
--
-- Bounds and fuel: `floor_log2` has 64 bits of fuel for numbers below 2^33. `addresses` and `fragments`
-- ask an iterator a given number of times; one more than there are addresses or fragments is enough.
-- `rpGetRoute` may go round a cycle, so its loop has fuel: any fuel above the length of the path is
-- enough. Conversions to floating point (`strtod`, `strtof`) are not evaluated: the model keeps the
-- text. The loops over `write` and `read` have one turn of fuel for each byte, and `readOrder` is called
-- once more than there are orders.
--
-- Not modelled: the conversions of addresses from and to text, which stand on functions of the C
-- library; the rest of the set-up of the network and the command lines; the start and the end of the worker
-- processes; logging, and the code that talks to the kernel and to Open vSwitch, which are input and
-- output.
pub mod Prelude
pub mod Ip
pub mod Mem
pub mod Graphml
pub mod Route
pub mod Setup
pub mod Cache
pub mod Work
pub mod Netlink
