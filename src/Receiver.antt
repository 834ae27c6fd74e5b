-- ===== src/Receiver.antt =====
-- rtp_receiver.hpp and rtp_receiver.cpp, class Receiver: the jitter buffer between the thread that
-- receives datagrams and the worker thread that hands packets on in order.
pub mod Datagram
pub mod Queue
pub mod Fifo
pub mod State
pub mod Window
pub mod Advance
pub mod Ownership
pub mod Order
pub mod Passed
mod Tests
