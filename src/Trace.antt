-- ===== src/Trace.antt =====
-- The trace generators, pim_ramulator_src/trace_gen/gen_trace_attacc_{bank,bg,buffer}.py: the PIM
-- commands of one attention layer, and the order in which the heads' commands are interleaved.
pub mod Command
pub mod Gs
pub mod Head
pub mod Select
pub mod Channels
pub mod Rows
pub mod Schedule
pub mod Bank
pub mod Bg
pub mod Buffer
