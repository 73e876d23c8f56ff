-- ===== src/Tests.antt =====
-- Tests of the definitions on concrete inputs, and the theorems applied at concrete inputs.
mod Trace
mod Gps
mod Shm
mod Msgq
mod Words
mod Bpt
mod Memory
mod Tree
mod Nodes
mod Barrier
mod SvebRuns
mod Sveb
