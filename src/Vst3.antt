-- ===== src/Vst3.antt =====
-- The process adapter of clap_wrapper_builder/clap-wrapper/src/detail/vst3/process.cpp, a module
-- for each group of its members. The host and the plugin are parameters.
pub mod ActiveNotes
pub mod EventOrder
pub mod Output
pub mod Midi1
pub mod SysEx
pub mod OutputEvents
pub mod Input
pub mod Buses
pub mod ParamChanges
pub mod Transport
pub mod Block
pub mod ChannelMap
pub mod StreamAdapter
pub mod Parameter
mod Tests
