-- ===== src/Env.antt =====
-- User environments: env.c, and `user_mem_assert` of pmap.c, which destroys one.
pub mod State
pub mod Ids
pub mod Ops
pub mod Life
pub mod Lookup
pub mod Init
