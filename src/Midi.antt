-- ===== src/Midi.antt =====
-- The conversions of clap_wrapper_builder/clap-wrapper/src/detail/shared/midi_translation.h, a
-- module for each group of functions.
pub mod SysEx7
pub mod Dialect
pub mod ChannelVoice
pub mod NoteExpression
pub mod Pool
mod Tests
