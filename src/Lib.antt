-- ===== src/Lib.antt =====
-- io-uring-net-engine: a chat server split over threads that share nothing but byte pipes, the
-- engine under it, and a single-threaded epoll server and load generator that it is measured
-- against. This library models the engine's ring buffer, packet pool, vectors, hash map and mutex;
-- of server-uring, the messages between threads, the acceptor's session table and the life of a
-- thread; the epoll server with the tick logic of its measurements; and of the load generator, its
-- command line, its text, its connect phase, its send schedule, and how it sends and reads frames.
--
-- How the parts meet: the acceptor mints sessions in its table and hands each to a worker as a
-- message; the worker gives it back with a close notice. Messages are framed on pipes, which are
-- ring buffers with one writing and one reading thread. Every thread runs one trampoline, which
-- prewarms its own packet pool before it publishes that it is running, and the supervisor installs
-- its pipes, starts, stops and joins it.
--
-- Which file models which part (paths from the repository's root):
--
--   Prelude        shared notation, lists, memory copies, masks, machine words; Prelude/Checked is
--                  LNX_CHECK of engine-uring/src/check.h
--   Ring           engine-uring/src/sds/ring_buffer.h and pipe.h: each member function is the
--                  definition of its name. Ring/Stream is the byte stream it promises, Ring/Spsc the
--                  two-thread policy ring_sync::spsc as interleaved steps
--   Message        server-uring/src/message.h and session_id.h: the structs and their bytes
--   Mesh           server-uring/src/mesh.h: mesh_post is post, mesh_post_msg post_msg, mesh_try_recv
--                  try_recv. Mesh/Queue is the queue of messages it promises
--   SessionTable   server-uring/src/session_table.h, session_table.cpp and session_record.h: each
--                  member function is the definition of its name. SessionTable/Directory is the map
--                  from ids to records that it promises
--   PacketPool     engine-uring/src/memory/packet_pool.h and packet_pool.cpp: each member function is
--                  the definition of its name. PacketPool/Invariant says when memory holds stacks of
--                  free blocks
--   HashMap        engine-uring/src/sds/cstr_hash_map.h: find is find_key, insert insert_key, erase
--                  erase_key, clear clear_map, reserve reserve_map, the constructor new_map; the other
--                  definitions have the members' names
--   Mutex          engine-uring/src/sync/mutex.h: mutex::lock is mutex_lock, and the members of
--                  unique_lock are the definitions of their names
--   Lifecycle      server-uring/src/thread_ctl.h, thread_ctl.cpp, worker_ctl.h, worker_ctl.cpp and
--                  worker_engine.cpp (the acceptor's trampoline and loop are the same): entry, attach
--                  and run_loop are worker_at, start is call, request_stop and join are supervisor_at,
--                  and install_pipes is the definition of its name
--   Epoll          server-epoll/server.cpp: each function is the definition of its name. Epoll/State is
--                  the globals, Epoll/Output the queues, Epoll/Packets the handlers of input, Epoll/Loop
--                  the passes; a pass of main's loop is turn
--   Tick           server-epoll/tick_logic.h: each function is the definition of its name;
--                  Tick/Histogram is hist, with init as new_hist
--   Bench          client-bench/src/wire.h, wire.cpp and consume_frames of traffic.cpp: each function is
--                  the definition of its name, and its lambda is sample. Bench/Server reads what the
--                  epoll server writes. Bench/Conn is conn.h, Bench/Socket netutil.cpp's three loops on
--                  sockets, Bench/Connect connect.cpp, Bench/Config config.cpp, Bench/Corpus corpus.h and
--                  corpus.cpp, and Bench/Traffic run_traffic: each function is the definition of its
--                  name, and the parts of run_connect and run_traffic are definitions of their own
--   Vector         engine-uring/src/sds/malloc_vector.h: each member function is the definition of its
--                  name, and contents is the list of elements that it stands for
--   FixedVector    engine-uring/src/sds/static_vector.h: each member function is the definition of its
--                  name, and operator[] is element
--
-- State is passed explicitly. A `usize` or `u32` wraps where the source's does; a ring's cursors
-- are `i64` and are numbers below 2^63 here, which the theorems ask for, since one more would be
-- undefined behaviour in the source. Ids are asked to stay below 2^64 for the same reason. Loops
-- go over a list, a count or a slot array, but for a few that run on fuel: parse_frames turns at
-- most once for each byte that is buffered, and consume_frames of the load generator likewise, and
-- reap_doomed at most once for each entry of the list of the doomed and each connection, since a
-- connection is doomed once; that this is enough is among the results. run_connect's inner loop
-- turns at most once for each connection that is asked for. A failed LNX_CHECK is the result
-- `trap`.
--
-- The calls of accept, recv and send in the epoll server and the load generator answer from
-- scripts in the state, one for each fd, so that a theorem holds for whatever the kernel does;
-- a script that has run out stands for EAGAIN. Whether epoll_ctl MOD succeeds is any function
-- of the state and the fd. The clock's readings are arguments, and so is what start_connect
-- gives.
--
-- Threads are interleavings of steps, each with at most one access to a shared atomic. Under
-- release and acquire a reader may see an old value of the other side's cursor; the bytes are then
-- read as last written. Memory of the pool is words at their addresses. What mmap and malloc
-- return is a parameter.
--
-- Not modelled: the boot and shutdown order in server-uring/src/main.cpp, the set-up and shutdown
-- of the epoll server and the load that its tick burns, server-epoll/server_sds.cpp, the engine's
-- shared mutex and profiler, the outer loops of run_traffic and its report, system calls,
-- printing, and the wrappers of atomics and pthreads.
pub mod Prelude
pub mod Ring
pub mod Message
pub mod Mutex
pub mod Mesh
pub mod SessionTable
pub mod PacketPool
pub mod Lifecycle
pub mod Vector
pub mod FixedVector
pub mod Tick
pub mod Epoll
pub mod Bench
pub mod HashMap
