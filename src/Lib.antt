-- ===== src/Lib.antt =====
-- Verification of the C++ of the WRAC plugin template: the CLAP wrapper under
-- clap_wrapper_builder/clap-wrapper/src, which turns a CLAP plugin into a VST3 plugin, an audio unit,
-- an AAX plugin or a standalone program. Paths below are relative to that directory.
--
-- The parts and the files that model them:
-- * Vst3 models the process adapter of VST3, detail/vst3/process.cpp and process.h. Its children
--   follow a block from the host to the plugin and back: Input (processInputEvents), ParamChanges
--   (the parameter changes of process), Transport (its first part), Buses (the audio ports),
--   ActiveNotes (addToActiveNotes, removeFromActiveNotes), EventOrder (sortEventIndices,
--   input_events_size, input_events_get), Output (the events of the host), Midi1
--   (enqueueMidi1OutputEvent), SysEx (enqueueSysexOutputEvent), OutputEvents (enqueueOutputEvent)
--   and Block (process and flush, and a sequence of calls). Vst3.ChannelMap models
--   detail/vst3/channelmap.cpp, Vst3.StreamAdapter the streams of detail/vst3/state.h, and
--   Vst3.Parameter the parameters of detail/vst3/parameter.h and parameter.cpp.
-- * Midi models detail/shared/midi_translation.h: the conversions of notes and of system exclusive
--   messages that the adapters share.
-- * Sha1 models detail/shared/sha1.cpp, which the wrapper makes the identifiers of its classes with.
-- * FixedQueue models detail/shared/fixedqueue.h, the queue between the audio thread and the main
--   thread of the adapters; MidiRing models detail/standalone/midi_ring.h, the queue of whole MIDI
--   messages of the standalone host.
-- * Standalone models the MIDI of the standalone host: MidiInput (processMIDIMessage of
--   detail/standalone/standalone_host_midi.cpp and the events that process of standalone_host.cpp
--   makes), MidiOutput (outputEventPush and midiOutputLoop), both on a MidiRing of 65536 bytes, and
--   Ports (the choice of the ports, with findMidiPort of standalone_audio.cpp). Settings is its file,
--   load and save of detail/standalone/standalone_settings.cpp, a text of lines.
-- * Presets models the index of presets, detail/clap/preset_discovery.cpp and preset_discovery.h:
--   Declarations (what a provider declares), Receiver (what it says of a file), Crawl (crawl, which
--   composes them), the order and the lookups in Presets itself, and Listeners (finish,
--   addCompletionListener and removeCompletionListener as steps of any number of threads).
-- * ClapProxy models clap_proxy.cpp and clap_proxy.h, the object between every wrapper and its
--   plugin: Memento (the streams of a state), Extensions (what connectClap asks for) and Lifecycle
--   (createInstance, the calls of the plugin, the destructor, and the thread checks), for one thread.
-- * Aax.AudioConfig models getAvailableBusConfigs of detail/aax/audioconfig.cpp, which finds the stem
--   formats of a plugin; Aax.StemMaps has its table of channel maps and Aax.Ports the types.
-- * SpinLock models detail/shared/spinlock.h, with any number of threads.
-- * Prelude holds what the modules share: numbers, Boolean tests, lists, bit operations, the signed
--   integers and the operations of doubles.
--
-- A method is a function from the state to the new state, named as in the source in snake case. The
-- events that the adapter keeps are a list with the list of indices beside it; the events that the
-- plugin gives out during a call are the list that the plugin returns, in order. A 32-bit counter
-- wraps at 2 ^ 32; the array of a queue or of a block is a list of the fixed length. packSysEx7 is
-- a loop on fuel, one more than the content has bytes, and is proved to return; the sending thread
-- of Standalone.MidiOutput has as much fuel as its ring has bytes, more than it can hold messages;
-- a number is printed with one more fuel than it says, more than it has digits; every other loop is
-- structural. std::sort and std::stable_sort are sorts by insertion: the comparison of the first
-- tells any two indices apart and the second keeps the order of equals, so the result is the same.
--
-- Code that is not in the repository is a parameter: the constants of the CLAP, VST3 and AAX
-- headers, the lists and queues of a host and whether it accepts an event, the plugin and its
-- preset providers, the file system, what the memory from a host's array of audio buffers on holds,
-- and the arithmetic of float and double without NaN. A point that a queue of a host does not have
-- is not given out. What a theorem needs of a parameter is a hypothesis of the theorem.
--
-- Not modelled: what a plugin writes to its output ports; the memory orders of the atomics and the
-- interleavings of the two threads of a queue; the wiring of pointers in setupProcessing; the cache
-- of preset indices, the abandoning of a crawl and the wait for it; the titles of parameters; the
-- callbacks that clap_proxy passes on to a wrapper; the failures of a stream once it is open; the
-- wrappers around the adapters and the process adapters of AUv2 and AAX; the user interfaces and
-- the audio and MIDI backends of the platforms; the code in Objective-C++; the Rust and TypeScript
-- of the template.
pub mod Prelude
pub mod FixedQueue
pub mod MidiRing
pub mod Midi
pub mod Vst3
pub mod Sha1
pub mod SpinLock
pub mod Standalone
pub mod Presets
pub mod Aax
pub mod ClapProxy
