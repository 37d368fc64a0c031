-- ===== src/Udp.antt =====
-- The network client: include/joyson_glove/udp_client.hpp, src/udp_client.cpp.
pub mod Os
pub mod Client
pub mod Calls
pub mod Sockets
pub mod Counters
pub mod Board
pub mod Opening
pub mod Threads
