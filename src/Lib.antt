-- ===== src/Lib.antt =====
-- A model of the Joyson glove SDK, a C++ library that drives a robot glove over UDP: six
-- motors, sixteen encoder channels and an IMU.
--
-- The program's parts, and the files that model them (paths from the repository's root):
--
-- * include/joyson_glove/protocol.hpp, src/protocol.cpp: packets, encoders and parsers.
--   Protocol/ has the constants, `Packet` with `serialize`, `deserialize` and the two checksums
--   (Protocol/Packet), the encoders of `ProtocolCodec` (Protocol/Codec) and the parsers
--   (Protocol/Parse). Protocol/Responses follows whole responses from the wire to the parser.
-- * include/joyson_glove/udp_client.hpp, src/udp_client.cpp: `UdpClient`, one function for each
--   method, in Udp/Client. Udp/Sockets is about the descriptors, Udp/Counters about the
--   statistics, Udp/Calls has histories of calls. Udp/Board is a board that answers, with the
--   datagrams that wait in the socket, Udp/Opening is about `connect` with it, and Udp/Threads
--   interleaves the exchanges of two threads, which the mutexes of the client let happen.
-- * What src/motor_controller.cpp, src/encoder_reader.cpp and src/imu_reader.cpp share is in
--   Device: the request over the client that they share, the start and stop of their update
--   threads, and the loops of these (Device/Loop, with Device/Rounds and Device/Tallies about
--   their rounds and their counters). Motor, Encoder and Imu have the classes, with their
--   caches and calibrations. Device/Links and Device/Replies are about their requests with a
--   board that answers, and so are the files Served of the parts; Motor/Polls has the requests
--   that an update makes; Motor/Reports, Motor/Lag and Motor/Late are about the status reports
--   of the motors that come late.
-- * include/joyson_glove/glove_sdk.hpp, src/glove_sdk.cpp: `GloveSDK` in Sdk, which creates the
--   client and the three parts, gives up all of them when one step fails, and forwards calls to
--   them. Sdk/Loop has its update thread. Sdk/Calls has the calls as data; Sdk/Phases is an
--   abstract machine of four phases, Sdk/Refinement and Sdk/Forwarded relate each call to it,
--   and Sdk/Histories runs sequences of calls. Sdk/Turns has the turns of the update thread and
--   of a caller that starts, stops, uses and destroys the SDK, in any order. Sdk/Served is
--   about `initialize` with a board that answers.
-- * examples/basic_motor_control.cpp and examples/read_sensors.cpp: `main` of both in
--   Examples/MotorControl and Examples/ReadSensors; Examples/Steps has what they share, and
--   Examples/MotorRun, Examples/Reads and Examples/SensorRun are about how they end.
-- * Testbed has an operating system and numbers to run on, and the examples.
--
-- How the code becomes definitions. Bytes and words are natural numbers, and arithmetic that
-- wraps is written with `%`. A vector is a list, a `std::array` is a list whose length the
-- invariants fix. A read outside of a vector, a null pointer that is followed, the
-- assignment to a joinable `std::thread` and the increment of the greatest `int` end in
-- `out_of_bounds`; `Returns m P` says that `m` ends otherwise, with a result and a state in
-- `P`. A method is a function on the state that it changes (`State`), which holds the object
-- and the link: the client with the world behind it. The loops run over a count that the code
-- fixes (six motors, sixteen channels, the bytes of a vector), so they need no other fuel. The
-- loops of the update threads take the list of what their loads of `thread_running_` return,
-- which another thread lowers: the theorems are about every list. The failures in a row are
-- counted in an `int`, which 2^31 rounds may overflow, so where a round may fail, their
-- number is bounded. A call that may throw `std::system_error` returns an `Outcome`.
--
-- What is a parameter. The operating system is `Udp.Os`: sockets, the steady clock, the
-- creation of threads, over a world that is left open; `SocketLaws` is what the manual pages
-- say of descriptors, `Board` what a board does that answers every datagram, over a network
-- that loses none, `Opens` that the calls that open a socket succeed, `Replies` that the
-- answers are packets, and `NeverCuts` that no answer is a motor response with a body of 18
-- bytes. `float` is `Prelude.Float`; the laws that a theorem needs of it are a record of their
-- own.
--
-- What is not modelled: log output and what the examples print; interleavings inside of a call,
-- beyond the two exchanges of Udp/Threads (in Sdk/Turns a thread makes whole calls, and only
-- `stop` and `shutdown` are cut, at their join; everywhere else `stop` lowers the flag and
-- joins at once); in read_sensors the update thread makes its rounds in the sleeps of `main`,
-- as many as a parameter says. The programs examples/test_*.cpp, which call one part each and
-- print, the tests and the scripts have no definitions.
pub mod Prelude
pub mod Protocol
pub mod Udp
pub mod Device
pub mod Motor
pub mod Encoder
pub mod Imu
pub mod Sdk
pub mod Examples
pub mod Testbed
