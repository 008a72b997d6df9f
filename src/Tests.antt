-- ===== src/Tests.antt =====
-- The theorems at concrete inputs: a small memory with lists, tables and texts.
mod Memory
mod Lists
mod Calls
mod Edits
mod Tables
mod Texts
mod Compare
mod Fluids
mod Vectors
mod Plists
mod Collector
mod Symbols
mod Timers
mod Numbers
mod Tuples
