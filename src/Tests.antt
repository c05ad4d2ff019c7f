-- ===== src/Tests.antt =====
-- Runs of the code at concrete inputs, with stand-ins for the third-party crates.
mod Samples
mod Packets
mod Ends
mod Tables
mod Calls
mod Ticks
mod Streams
mod Configs
mod Routes
mod Rules
mod Running
