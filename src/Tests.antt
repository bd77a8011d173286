-- ===== src/Tests.antt =====
-- A concrete host, and each theorem that has a hypothesis at one concrete input.
mod Codecs
mod Machine
mod Disk
mod Values
mod Runs
mod Inodes
mod Invariant
mod Views
