-- ===== src/Invariant.antt =====
-- What the commands of arm_simulator-1.4/arm_core.c and all that is made of them keep.
pub mod Keeps
pub mod Accesses
pub mod Exceptions
pub mod Processing
pub mod Transfers
pub mod Step
