-- ===== src/Tests.antt =====
-- The theorems at small states.
mod State
mod Queues
mod Scheduler
mod Heap
mod Text
mod Lines
mod Packets
mod Messages
mod Pages
mod Whole
mod Ports
mod Pools
