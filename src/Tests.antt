-- ===== src/Tests.antt =====
-- Each theorem that has hypotheses, applied to concrete data on which they hold.
mod Machine
mod Memory
mod Boot
mod Kernels
mod Library
mod Debug
mod Print
mod Machines
