-- ===== src/Lib.antt =====
-- The User Message Protocol (UMP): reliable messages over UDP datagrams.
--
-- The program. An application opens connections and sends whole messages through ump.c. For each
-- connection there is a socket with a thread of its own (ump_sock.c). The thread goes round: it
-- takes the application's calls, takes the packets that the receiving thread of the core
-- (core_thread.c) put into the socket's queues, acknowledges, resends, and sends what the window
-- allows. Packets are turned into datagrams and back by upacket.c; timer_list.c keeps the packets
-- in flight; rtocomputer.c estimates how long to wait for an acknowledgement. All paths below are
-- in user_message_protocol/.
--
-- The files.
--   Base and its children: names of the libraries, Boolean tests, lists, C integers, bits.
--   Packet: `UMPPacket` of upacket_private.h, the masks of upacket_public.h, and u_packet_new,
--     u_packet_get_flag, u_packet_set_flag, u_packet_clear_flag and u_packet_set_data of upacket.c.
--     Packet/Codec: u_packet_to_binary and u_packet_from_binary.
--   Seq: ump_cmp_in_sndbase, ump_cmp_in_rcvbase, ump_seq_to_relative_via_sndstartseq and
--     ump_relative_to_seq_via_sndstartseq of ump_sock.c.
--   Clock: ump_time_sub of ump_misc.c, and glib's clock as a parameter.
--   Timer: timer_list.c. Rto: rtocomputer.c.
--   Event: mevent.c. Event/Threads: threads that sleep at an event and are woken, as a step relation.
--   Sock: `UMPSocket` of ump_sock_private.h, and with its children ump_sock.c. Sock/Ack: when data is
--     acknowledged. Sock/Window: the positions of the windows. Sock/Calls and Sock/Receive: the lock
--     machines of control, send and receive calls. Sock/Sending: handling of a message that is sent.
--     Sock/DataAck: acknowledgements from the peer and congestion. Sock/States and Sock/Control: the
--     states of a connection and its control packets. Sock/Data: received data, timeouts, probes,
--     heartbeats and resets. Its children follow a message at its receiver: Sock/Data/Sent says what
--     comes in, Held and Gather what is in the list of received packets, Place, Extend, Advance and
--     Complete what the walks over this list do, Store, Closing and Reassembly what one packet does,
--     Reordering, Arrival and Called what all of them do. Sock/Thread: one round of
--     ump_sock_thread_func, and the queues; Sock/Thread/Loop: its loop, and who wakes the thread.
--     Sock/Life: ump_sock_new and ump_sock_free. Sock/Locks: what holds of the three lock machines
--     between the steps; Sock/Locks/Always: a socket from ump_sock_new on, with rounds of its thread,
--     calls and packets in any order, as a step relation.
--   Message: ump_send_message and ump_receive_message of ump.c. Message/Split, Message/Whole and
--     Message/Delivery: a message cut into packets and put together from them in order.
--     Message/Network and Message/Reordered: its datagrams in another order. Message/Carried and
--     Message/Outgoing: the datagrams that its sender sends. Message/EndToEnd: from one application to
--     the other.
--   Core: `UMPCore` of ump_private.h. Core/Table: the hash and the equality of addresses of ump_misc.c,
--     and glib's hash tables as an interface. Core/Dispatch: receive_thread_func of core_thread.c.
--     Core/Connections: ump_connect, ump_accept and ump_close of ump.c. Core/Clean: cleaner_thread_func
--     of core_thread.c and ump_core_close of ump.c. Core/Threads: the loops of both threads, with
--     ump_recvfrom of ump_misc.c, and ump_core_bind and ump_stop_background_threads_and_socket of ump.c
--     as a whole. Core/Place: the abstract view, in which an address
--     is in one place at a time, and how a place changes. Core/Steps: a core from ump_core_bind on, with
--     packets, calls and rounds of the cleaner in any order, as a step relation.
--   Samples and the modules called Tests: concrete inputs.
--
-- How state is modelled. A function that changes a socket takes it and returns it; the fields have
-- the names of the C fields. Static functions lose their prefix `ump_`. A mutex that the thread
-- holds and an event that is set are Boolean fields; `ctrl_done`, `snd_done` and `rec_done` are
-- events. The result of g_mutex_trylock is an argument. Datagrams that are sent are collected in
-- the field `sent`, and readings of the clock are counted. A pointer into a list of packets is the
-- address of a node. A read outside the array of packets is the result `none` of handle_send_data,
-- and a read behind a datagram the result `overread` of from_binary. In the core, a pointer to a
-- socket is a number, and `socks` tells what it points at. A call that blocks is two steps, so that
-- others come in between. Sixteen-bit numbers wrap as written out (`u16`); signed numbers are ℤ.
-- Every loop is over a list but for the one that cuts a message into packets: its fuel is the
-- number of bytes, which is enough since each round takes a byte or more. The loops of threads are
-- step relations.
--
-- Parameters. `Clock`: g_get_current_time as what its n-th call returns, and g_time_val_add, assumed
-- to add microseconds (`AddsMicros`) where a theorem says so. `Double`: the arithmetic of double,
-- with the assumption `IsOrdered` on its order and on the doubling of numbers that are at least 16.
-- `GHashTable`: glib's hash tables, with what glib documents of their operations (`IsTable`); an
-- instance is in Core/Samples. Memory allocation is taken to succeed.
--
-- Not modelled: sendto and recvfrom, whose results are arguments, the joining of threads, the
-- memory that functions with `free` in their name give back, output in debug_out.c, and test_ump/.
-- A round of the socket's thread runs while no other thread changes the fields that it holds the
-- mutexes of, and a function of the core runs as a whole while it holds `umps_lock`. The order in
-- which a hash table is walked is glib's. What the code does once it has followed a dangling
-- pointer to a harvested packet (`follows_dangling`) is left open. Packets dropped on purpose for
-- tests (`RAND_DROP`) are left out.
pub mod Base
pub mod Packet
pub mod Seq
pub mod Clock
pub mod Timer
pub mod Rto
pub mod Event
pub mod Sock
pub mod Message
pub mod Core
pub mod Samples
