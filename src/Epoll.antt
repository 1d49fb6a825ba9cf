-- ===== src/Epoll.antt =====
-- server-epoll/server.cpp: the single-threaded chat server. Epoll/State is what it keeps and the
-- containers, Epoll/Output the queues towards clients, Epoll/Packets what clients send, Epoll/Loop the
-- passes of the event loop. A `conn&` is its fd. What the system calls return is read from scripts in
-- the state, one for each fd: a script that has run out means EAGAIN. Printing, setsockopt and the
-- addresses of clients are left out.
pub mod State
pub mod Output
pub mod Packets
pub mod Loop
mod Tests
