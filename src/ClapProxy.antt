-- ===== src/ClapProxy.antt =====
-- clap_wrapper_builder/clap-wrapper/src/clap_proxy.cpp and clap_proxy.h: the object between a wrapper
-- and a plugin.
pub mod Memento
pub mod Extensions
pub mod Lifecycle
