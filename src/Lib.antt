-- ===== src/Lib.antt =====
-- Spp_ServerFrameWork: a framework of servers that talk through shared memory and sockets.
--
-- A proxy process owns the sockets of its clients, worker processes run the plug-ins, and a controller
-- process watches both. The proxy reads bytes from a socket into the cache of a connection, cuts them
-- into messages and puts each message, tagged with the flow number of its connection, into a ring of
-- bytes in shared memory; a worker takes messages out of the ring, and answers through a second ring.
--
-- Files and code (paths from the root of the repository, base/ for ServerFrameWork/src/base/):
--   Base        shared types, tests, lists, words and copies of memory; no code of its own
--   Delay       CMisc::getdelay, libcomm/src/base/misc.cpp
--   ShmMq       CShmMQ, base/shmcommu.cpp: init, enqueue, dequeue_i, dequeue and getstat carry their
--               names. The block is a function from offsets to bytes, the words head_ and tail_ are
--               fields. ShmMq/Ring is the ring that the layouts are compared with, ShmMq/Refine the
--               queue of messages that it stands for
--   TShmCommu   CTShmCommu, base/shmcommu.cpp: sendto, poll and check_expire; a call returns the
--               callbacks that it makes. Producers and consumers are the queue of ShmMq itself
--   MemPool     CMemPool, base/mempool.cpp: allocate, recycle, extend and the two release_size, of which
--               the one over a block size is release_count
--   RawCache    CRawCache, base/cache.cpp: append, skip and data, over MemPool and the bytes of its blocks
--   ConnSet     CConnSet, base/connset.cpp: all operations by flow number, over caches as lists of
--               bytes, as RawCache/Bytes has them
--   SockCommu   CTSockCommu, base/sockcommu.cpp: SockCommu/State has its fields, Accept the new
--               connections, Receive the loop of poll and check_expire, Send sendto and ctrl, Start init,
--               InitExt and create_sock, Route the tables of nodes. The callbacks are a parameter that
--               gets the whole state and gives back another. Its other children have proofs
--   Load        CLoad, base/load.cpp
--   Xxtea       the cipher of libprotocol/src/protocol_pack.cpp
--   ProtocolPack   the packs of libprotocol/src/protocol_pack.cpp and include/protocol_pack.h:
--               ProtocolPack/Packer, FixedPacker and UnPacker are the classes, Cookie the functions that
--               change a pack in place. Sequence makes the calls of a client from a list of fields, Wire
--               has the bytes of a pack, Cookies what a pack with a cookie is, Sealed the bytes as the
--               words of the cipher
--   Proxy       ator_recvdata of ServerFrameWork/src/proxy/defaultproxy.cpp, from the bytes of a client
--               to the queues of TShmCommu, with the functions of the plug-in as a parameter;
--               Proxy/Events has ator_connected, ator_disconn, ator_overload, ator_timeout and
--               ctor_recvdata; Proxy/Delivered compares the queues with bounded queues of messages
--   LoadTable   CLoadTable, base/loadtable.cpp: init, Init_LoadItem, findblock, read and write;
--               LoadTable/Items has the list of items that a block stands for
--   PollFlow    CEPollFlow, base/epollflow.cpp
--   Base64      base64_encode and base64_decode of libcomm/src/util/base64.cpp, on arrays and strings
--   ShmQueue, ShmStack, ShmArray   the containers of libcomm/include/shm_queue.h, shm_stack.h and
--               shm_array.h
--
-- Conventions: numbers are natural numbers with the wrap-around of 32-bit arithmetic written out
-- (u32, add32, sub32). Addresses and pointers have 64 bits, so a `struct timeval` takes 16 bytes and
-- the header of a message 27. Time is an argument of every call that reads a clock, and so is what a
-- socket or a system call answers. Processes and threads take turns call by call, as the locks have
-- it.
--
-- Bounds and fuel: a ring has less than 2 ^ 31 bytes, as a segment's size is an int. `dequeue` is
-- given rounds, and more rounds than messages are enough; the loop of `ator_recvdata` has more rounds
-- than bytes. A cipher has at most 32 rounds, so 33 are enough to meet its end. The loop of
-- `release_size` halves 2 ^ 31 until it is below a megabyte, in 13 rounds, and `fit_block_size`
-- shifts a 32-bit number to 0 within 32. `findblock` is given rounds, and more rounds than items are
-- enough.
--
-- Not modelled: the sockets' system calls, configuration, logging, statistics and process
-- control, which are calls of the system; the numbers with a point in the packers, which are printed
-- and read as text; the hash map in shared memory; the timers of the proxy, and the plug-in. An `assert` that stops a process is a value of its
-- own in ShmMq (assert_failed) and left out elsewhere, where the file says so. In ConnSet the pool
-- always has a block.
pub mod Base
pub mod Delay
pub mod ShmMq
pub mod TShmCommu
pub mod Load
pub mod Xxtea
pub mod MemPool
pub mod ProtocolPack
pub mod PollFlow
pub mod Proxy
pub mod LoadTable
pub mod RawCache
pub mod ConnSet
pub mod SockCommu
pub mod ShmQueue
pub mod ShmStack
pub mod ShmArray
pub mod Base64
