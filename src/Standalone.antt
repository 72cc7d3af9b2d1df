-- ===== src/Standalone.antt =====
-- The standalone host of clap_wrapper_builder/clap-wrapper/src/detail/standalone: what comes from and
-- goes to MIDI ports, and the choice of the ports.
pub mod MidiInput
pub mod MidiOutput
pub mod Ports
pub mod Settings
