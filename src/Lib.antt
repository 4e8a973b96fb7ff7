-- ===== src/Lib.antt =====
-- net-lib-wrapper: links over non-blocking sockets that one epoll thread serves, and the packets
-- that its sample programs send over them.
--
-- A program that uses the library calls the functions of ms-epoll-tcp.cpp with the handle of a link.
-- A link (tcp-link.cpp, include/tcp-link.h) owns a socket and a list of output buffers, and stands in
-- a map from handles to links. link_send writes what the socket takes and queues the rest; the epoll
-- thread (ms-epoll.cpp) empties the queues with do_send_buff, reads with on_event_read, accepts with
-- on_event_accept, and tells the user by callbacks; the timeout thread closes links that are silent.
-- The samples (samples/*/include) encode packets with pack_resp and write_packet, and cut the bytes
-- that the callback gets into packets with on_tcp_recv_data.
--
-- What is modelled, and where:
--   Prelude          shared names; loops on fuel (Prelude/Loops) and std::map (Prelude/Assoc).
--   Os               the system calls, as a parameter: each takes the state of the world and gives
--                    the next. WriteLaws and ReadLaws are what the manual pages of write and read
--                    say of lengths. Nothing else is assumed of the system but by name.
--   Tcp/Link         MsTcpLink's members, send_buff_s.
--   Tcp/Send         send_data and the loops that empty one link's buffers, which do_send_buff and
--                    on_event_write share.
--   Tcp/Table        the static members: the map, add_tcp_link, find_link, del_link, link_destroy,
--                    free_all_link_map, is_alive, check_link_timeout. A callback is an entry of the
--                    list of events; a pointer to a link that other code holds is written back to
--                    the map with `store`.
--   Tcp/Output       link_send, on_event_write, do_send_buff.
--   Tcp/Recv         on_event_read.
--   Tcp/Setup        get_ip_by_name, link_create, link_connect, link_listen.
--   Tcp/Accept       accept, on_event_accept, on_event_connected.
--   Tcp/Api          ms_tcp_create, ms_tcp_destroy, ms_tcp_connect, ms_tcp_listen, ms_tcp_send,
--                    ms_tcp_get_link_addr.
--   Epoll            event masks and registration (Epoll/Defs), and a round of worker_thread
--                    (Epoll/Worker). Epoll/System has the calls of the user and the rounds of the
--                    threads as steps on the static members.
--   Tcp/Invariant    what each operation keeps of the map of links.
--   Wire             ms_endian.h and net-memory-io-base.h: byte order, readers and writers; Wire/Lists
--                    has those of sets, arrays and lists.
--   Packet           net-packet.h: the header, write_packet, read_packet, and the bodies of the
--                    handshake; Packet/Bodies has the other bodies, a file for a group of them. A
--                    std::map is its entries in the order of its keys, a float the word of its bits.
--   Frame            comm-func.h and net-handler.h: parse_data, on_tcp_recv_data, send_packet.
--   Udp              udp-link.cpp (Udp/Link, Udp/Send), and ms-epoll-udp.cpp, link_create and
--                    udp-ms-epoll.cpp (Udp/Api).
--   Epoll/Start      ms_epoll_init, ms_epoll_end and ms_pthread_creat, over a thread library that
--                    is a parameter; Udp/Start is the same for the datagram library.
--   Queue            task queues and threads of the samples: Tasks (the queue of tasks), Timers
--                    (the timers of a thread), Threads (the worker threads, cut into steps where a
--                    worker lets the mutex go, so that any interleaving is a sequence of steps) and
--                    TaskThread (the thread that runs tasks and timers).
--   Guard            CRefCountPtr over a heap of counts; Guard/Store is a program's pointers and
--                    what it may do with them.
--   Singleton        CSingletonHandler, cut at each access to the pointer and the mutex, for threads
--                    that interleave.
--   Session          Handle (link-hdr.h and test-client-handle.cpp: the state of a link in the
--                    handshake and its answers), Manager (link-mgr.h and TcpIOCallbackFunc: the map
--                    of handles that the callbacks keep) and Client (test-client.cpp: the requests
--                    of a client).
--   Tests            examples, over a system that answers from a script (Tests/Scripted).
-- Files of the samples are those of samples/samples-client; the other samples have copies.
--
-- Conventions. An `unsigned int` keeps its wrap-around as a remainder; a signed word in a packet is
-- its 32 or 64 bits; the `int` counts of bytes sent, of bytes in a buffer and of a message's length are
-- numbers, so that the sending loops, ms_append and parse_data are the source's where these counts stay
-- below 2 ^ 31; a little-endian machine is assumed, as the sources do. `none` as a descriptor is
-- -1, and `none` as a pointer is NULL. A loop runs on fuel, and `none` as its result is fuel that ran
-- out. The inner send loop always gets a unit for each byte and one more, which is enough; for the
-- loops that depend on the system or on the bytes received, the results below say which fuel is
-- enough, and for one case that none is.
--
-- Parameters besides the system calls: the thread library, the digest function get_md5, and the
-- local time.
--
-- Not modelled: the locks of the libraries and the interleaving of their two threads (an operation
-- runs alone, as under the sources' locks; the workers of Queue/Threads do interleave), allocation
-- that fails, socket options, logging. Of a structure that is
-- only written, the members that are not written are left out. Memory past the end of an array is not
-- modelled: a loop over elements that leaves the list of them fails, and where a copy of a cruise's
-- alias reads past its array the result is `none`.
pub mod Prelude
pub mod Os
pub mod Epoll
pub mod Tcp
pub mod Wire
pub mod Packet
pub mod Frame
pub mod Udp
pub mod Queue
pub mod Guard
pub mod Singleton
pub mod Session
mod Tests
