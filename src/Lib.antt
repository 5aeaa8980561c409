-- ===== src/Lib.antt =====
-- A model of PMX, a mixer that is made of PipeWire filters and their helpers, and what is proved of it.
--
-- A MIDI controller turns a knob; the router (include/midi/router/midi_router.h,
-- src/applications/midi_router.cpp) looks the parameter up in a table, scales the value, and writes
-- an OSC message whose path names channel, layer and parameter. The filter chain controller
-- (src/applications/filter_chain_ctrl.cpp) parses the path, queues a request, and a thread of it sets
-- the parameter in the node of a filter chain. The other filters connect more devices.
--
--   Base           texts as lists of bytes, integers, lists, and what a C++ call comes to (Run)
--   Pod            what is written into a PipeWire sequence: the calls on a builder
--   Properties     a filter's parameters, and include/tools/filter_parameter_tools.h
--   Parameters     include/parameters/parameters.h and src/parameters.cpp
--   Osc            src/parse_osc_path.cpp and src/processing.cpp
--   Interpolation  src/interpolation.cpp, over an interface of floating point numbers
--   MidiRouter     the router: Message and Ports follow midi_router.h, Processor midi_router.cpp;
--                  Paths, Mix, Invariant and Updater hold the proofs
--   ProxyWatcher   src/proxy_watcher.cpp: Events the handlers; Decode, Update and Watch the proofs
--   FilterChain    filter_chain_ctrl.cpp and include/filter_chain_control/filter_chain_control.h;
--                  Requests is about the queue, Delivery about the thread, Name about the names that
--                  are set, Cycle about the way of a message through both
--   Ump            include/ump/create_ump_message.h
--   Slp            src/applications/slp_ctrl.cpp (Input, Output) and include/slp_ctrl (Loopers);
--                  Reports, Lights and Safety hold the proofs
--   Traktor        src/applications/traktor_z1_router.cpp
--   LpMini         src/applications/lp_mini_init.cpp; Phases and Ending hold the proofs
--   Metadata       src/applications/metadata_manager.cpp: what is published, how it is taken
--                  over, and in Writer its two threads; Settling holds a proof of
--                  them; WpMetadata follows include/wpcpp/metadata.h
--   Configuration  src/config.cpp over yaml-cpp and a file system; Nodes and RoundTrip hold the proof
--   Constants      src/constants.cpp
--   Collections    src/port_collection.cpp, src/proxy_collection.cpp, src/link_collection.cpp
--   PipewireTools  src/pipewire_tools.cpp: the message that sets parameters of a node
--   Units          src/units.cpp over sd-bus; Reading is about its loops
--   Errors         include/error/error.h and include/sdcpp/error.h
--   Tokens         words of a line, as std::istringstream reads them
--   Commands       src/commands; Status.Wiring, Status.Naming, Status.Links,
--                  Status.Safety, Results, SetupDelivery and
--                  Order hold the proofs
--   Console        src/applications/console.cpp: the loop, and in Handshake its two threads
--   Network        src/applications/osc_network_sender.cpp (Sender) and osc_network_receiver.cpp
--                  (Receiver); Relay puts the two together
--   SynchronizedQueue  include/utils/synchronized_queue.h
--   Grpc           include/grpc/GrpcService.h; Listing, Items, Keys, Published and Setup hold the
--                  proofs
--   CtrlPipe       src/applications/ctrl_pipe.cpp
--   ParamsWatcher  src/applications/params_watcher.cpp; Watching holds the proof
--   Witnesses      the theorems at concrete inputs
--
-- A signal processor is a function from the buffers of a cycle and the variables that it captures to
-- what it writes and the variables after it. An exception, and behaviour that C++ leaves undefined,
-- is a value of Run. A lock-free queue is a list with the capacity of the source. Where threads meet
-- in the middle of their work (Metadata.Writer, Console.Handshake, Network.Sender,
-- SynchronizedQueue), their steps are a relation and a run is any sequence of them; elsewhere a cycle
-- and a round of a thread each run to their end. The loops go over lists, except those of Units, which
-- read an answer of the bus and have fuel: as much as is left to read is enough. The loop of the
-- writer of the configuration, which has no end, goes on for a number of rounds.
--
-- Parameters of the model are the floating point numbers (Interpolation.Double, Slp.Libraries),
-- binding a PipeWire object, the comparison of floats, the reading of OSC arguments (Pod.ArgReader),
-- the update of a parameter by pwcpp, yaml-cpp and the file system (Configuration.Yaml and
-- Configuration.FileSystem), the environment, sd-bus (Units.Reader and the functions beside it),
-- CLI11, std::from_chars, and what the integer fields of a gRPC response keep of a number, whose
-- width a protocol file sets that is not in the repository.
--
-- Not modelled: the calls that set up PipeWire, WirePlumber, the gRPC server and the sockets at the
-- start of each main, the log, and the copies of other projects under external.
pub mod ParamsWatcher
pub mod CtrlPipe
pub mod WpMetadata
pub mod Grpc
pub mod SynchronizedQueue
pub mod Network
pub mod Console
pub mod Constants
pub mod Units
pub mod Commands
pub mod PipewireTools
pub mod Errors
pub mod Tokens
pub mod Collections
pub mod Configuration
pub mod Base
pub mod Parameters
pub mod Osc
pub mod Pod
pub mod Properties
pub mod Interpolation
pub mod MidiRouter
pub mod ProxyWatcher
pub mod FilterChain
pub mod Ump
pub mod Slp
pub mod Traktor
pub mod LpMini
pub mod Metadata
pub mod Witnesses
