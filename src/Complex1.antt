-- ===== src/Complex1.antt =====
-- led/complex1: the C++ example that drives a LED by messages, and its periodic threads.
pub mod Queue
pub mod Server
pub mod Periodic
pub mod Menu
pub mod Program
pub mod System
