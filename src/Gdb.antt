-- ===== src/Gdb.antt =====
-- arm_simulator-1.4/gdb_protocol.c: the packets that a debugger sends, what they do to the processor,
-- and the answers.
pub mod Text
pub mod State
pub mod Words
pub mod Handlers
pub mod Run
pub mod Packet
pub mod Checksum
pub mod Codec
pub mod Transfer
pub mod Register
pub mod Continue
pub mod Loop
pub mod Breakpoint
pub mod Traced
pub mod Hidden
pub mod Untraced
pub mod Sends
pub mod Replies
pub mod Sequence
pub mod General
