-- ===== src/Examples.antt =====
-- The theorems on concrete inputs, and tests of the definitions.
mod Arrays
mod Frames
mod Heaps
mod Processes
mod Texts
mod Calls
mod Bytes
mod Regions
mod Traps
mod Pages
mod Tables
mod Demo
mod Apics
mod Firmware
mod Startup
mod Timers
