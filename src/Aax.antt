-- ===== src/Aax.antt =====
-- The AAX wrapper, clap_wrapper_builder/clap-wrapper/src/detail/aax: which audio configurations a
-- plugin is offered with.
pub mod StemMaps
pub mod Ports
pub mod AudioConfig
