-- ===== src/Tests.antt =====
-- Tests on small inputs, and an instance of each theorem that has conditions.
mod Bits
mod Pages
mod Text
mod Tables
mod Machine
mod Screen
mod Heaps
mod Devices
