-- ===== src/MidiRouter.antt =====
-- include/midi/router/midi_router.h and src/applications/midi_router.cpp: MIDI messages of three
-- devices become OSC messages of the mixer.
-- `MidiRouter/Ports` has the functions of the header, `MidiRouter/Processor` the filter's callback
-- and the thread that stores what it chose; the laws are in the modules beside them.
pub mod Message
pub mod Ports
pub mod Processor
pub mod Mix
pub mod Paths
pub mod Invariant
pub mod Updater
