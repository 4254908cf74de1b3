-- ===== src/Tests.antt =====
-- The theorems of the library applied to concrete machines, messages and queues.
mod Data
mod Device
mod Guest
mod Queue
mod Stream
mod Children
mod Way
mod Kernel
mod Overlap
mod Bench
mod Pins
mod Machine
mod Demo
mod Life
mod Clock
