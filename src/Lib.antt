-- ===== src/Lib.antt =====
-- A verification library for the network layer: a manager process per address that keeps the TCP
-- connections of its clients, and talks to clients and to other managers over fifos.
--
-- The parts, and the files that model them:
--   Prelude     numbers, integers, lists and strings that the other modules share. C's `int` is the
--               type ℤ cut to 32 bits by `to_int`.
--   ByteQueue   array_queue.c: the ring behind a socket's send window. Its theorems are in
--               ByteQueue/Contents (the invariant), Refine and Iterate.
--   CString     Functions.c: the string functions of the repository, with laws in CString/Laws.
--   IpPacket    ip.c, ip.h: IP packets and their text form. Digits, Layout and RoundTrip hold the
--               proofs.
--   Stdio       the decimal conversions of `sprintf` and `sscanf` that tcp.c and fifo_utils.c use.
--   TcpPacket   tcp.c, tcp.h: TCP packets, their text form and checksum.
--   SocketId    network.h, socket_utils.c: the identity of a socket, its copies and comparison.
--   Heap        util_types.h: sockets and identities on a heap. A pointer is a number and NULL is
--               `none`, so that two pointers to one object see each other's writes.
--   Os          the operating system: a parameter `os` that answers each call as a function of the
--               calls before it. The calls are recorded in a trace.
--               Os/Waiting has runs that only call the system and may wait for it.
--   Fifo        fifo_utils.c: names of fifos (Fifo), writes and the fifos of a socket (Fifo/Io), the
--               reads (Fifo/Read) and the text of requests (Fifo/Requests).
--   World       the state of a manager, and runs that may read through NULL and then have no result.
--   Window      the receive window: the loops of `receiveNewData` and `update_recv_window`.
--   Socket      socket_utils.c on the heap, and `construct_packet` of tcp.c.
--   Hashmap     Hashmap.c, Hashmap.h: the map of sockets. Table has its invariant and lookup,
--               Insert, Remove and Iterate its operations.
--   Packets     packet_handlers.c: `handle_packet` and its handlers. Listen and Closing hold some of
--               them, and Notify the two replies of network_manager/network_manager.c that they send.
--   Manager     network_manager/network_manager.c. In Manager: packets that come in and go out.
--               Sockets: the sockets that it binds, with `hashDestroy` of Hashmap.c. Remove: how a
--               socket leaves. Reading: the reads of a socket's fifos. Bind, Listen, Connect,
--               Closing: the requests of clients. Send: the packets with data. UserData and Status:
--               what a socket does on its own in each round. Fifos: the manager's own fifos.
--               Sweep: HASH_MAP_FOREACH. Loop: the rounds, `managerLoop` and `runManager`.
--   Client      network.c, network.h: the library of a client, with its own state, in Bind, Listen,
--               Connect, Accept and Transfer. Listen/Returns holds a proof.
--   Tests       the theorems at concrete inputs.
--
-- `handle_incoming_ip_packet` checks a packet, looks its socket up in the map and sends the reply
-- that `handle_packet` gives. `handle_packet` reads the socket and its identity from the heap,
-- changes the socket, enters new connections into the map, hands received bytes to the client's
-- fifo and takes acknowledged bytes out of the send window.
--
-- A client and its manager share no state: a call of the client library writes a request into a
-- fifo and waits for the answer in another, and the manager looks for requests in its rounds. What
-- one side reads is what the system answers.
--
-- Loops over arrays are recursion on the array. The loop over the send window runs at most as often
-- as the window has bytes, which is its fuel; QUEUE_FOR_EACH gets one round more than the capacity,
-- and HASH_MAP_FOREACH one more than the map has slots. A loop that waits for the system gets fuel as
-- an argument: one round more than the bytes of a message for a read, and more than the looks at the
-- clock in ten seconds for the wait for an answer. `managerLoop` gets the number of its turns.
--
-- A run has no result, `none`, where the code reads or writes through NULL, writes behind an array,
-- frees a string constant or runs out of fuel. Functions that give NULL or such an outcome have two
-- levels: `none` is no result, and `some none` is NULL. Exceptions are the loop that takes
-- acknowledged bytes out of a send window, which does nothing for a socket without one, though every
-- socket of `create_new_socket` has one; `str_to_ip`, whose memory is taken to be given; and `strcpy1` and
-- `my_mem_cpy`, which stop at the end of what they are handed.
--
-- Not modelled: printing; freeing of strings and of clients' identities; the byte
-- behind `total_length_str` that the read of a packet writes; `send_string` of network_manager.c,
-- which nothing calls; `AddressDestroy` and `SocketDestroy`; the programs with a `main`, which only call
-- the library or are input for another tool.
pub mod Prelude
pub mod ByteQueue
pub mod Client
pub mod CString
pub mod IpPacket
pub mod Stdio
pub mod TcpPacket
pub mod SocketId
pub mod Heap
pub mod Os
pub mod Fifo
pub mod Window
pub mod Socket
pub mod Packets
pub mod Manager
pub mod Tests
pub mod World
pub mod Hashmap
