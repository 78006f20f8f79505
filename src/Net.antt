-- ===== src/Net.antt =====
-- include/net/: the feed (moldudp64.hpp, multicast_receiver.hpp, multicast_test_sender.hpp) and the
-- query server (query_server.hpp). What the sockets deliver is an argument.
pub mod Moldudp64
pub mod Receiver
pub mod Sender
pub mod Query
mod Tests
