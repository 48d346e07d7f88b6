-- ===== src/Lib.antt =====
-- The Ether Dream laser protocol: the library ether-dream, with which a host finds DACs and streams
-- points to them, and dac-emulator, a DAC in software.
--
-- A DAC broadcasts its state over UDP, and a host that has heard it connects over TCP. The host
-- queues commands, sends them, and takes one response to each; the DAC holds a light engine, a
-- playback machine and a buffer of points, which it puts out at the point rate.
--
-- Base, Io: shared helpers; `Result`, and what the program takes from std::io and byteorder. The
--   native numbers are used throughout, so a field of type u8, u16 or u32 is a number, the range is
--   a hypothesis (IsByte, IsU16, IsU32), and a conversion with `as` is a remainder. A reader or
--   writer is state passing over the stream that the program hands it: a slice, a vector or a
--   mutable slice. byteorder is an instance parameter whose laws are ReadsLittleEndian and
--   WritesLittleEndian; Io.Standard fills them.
-- Protocol (ether-dream/src/protocol.rs): the structures, and for each a reader (Decode), a writer
--   (Encode) and a layout that is written down on its own (Layout). RoundTrip, Spelling and
--   Isomorphism relate the three. Protocol.Command has the commands of the module `command`.
-- Dac (ether-dream/src/dac/mod.rs): Status, Dac, Addressed and their conversions (Convert), and the
--   command whose kind is known at run time (Command). A set of flags is the number of its bits;
--   from_bits_truncate of the bitflags crate is a parameter (Bitflags, DropsUnknownBits).
-- Client (ether-dream/src/dac/stream.rs): Stream and CommandQueue. Tcp is the TCP stream: what was
--   sent, what comes in until a timeout, and how many bytes each call of write takes. Queue has the
--   builders, Submit has send_command, submit and connect_inner, Response has check_errors and
--   recv_response. A panic is `none`. View gives the commands that a queue stands for; settle in
--   Receiving is the description of a round of responses. Discovery is RecvDacBroadcasts of
--   ether-dream/src/lib.rs.
-- Emulator (dac-emulator/src): Process has process_command, Interpret has read_from_tcp_stream and
--   read_command_via_tcp_and_respond, Emit has emit_points in its two parts, Rate has rate_interval
--   with `f64` as a parameter, Setup has lib.rs, listener.rs and Stream::new, and Broadcast has
--   broadcaster.rs with its timers. Select has the loop of next_points as a step relation, and Next
--   the function along a schedule, with what is given up half done. History is the abstract view of
--   the loop: the list of the points that were accepted, and that of the points that were played.
--   Interpret.Carried and Next.Bounds are about the ranges of what is read and of what is kept, on
--   which the panics of next_points depend, and Next.GivenUp about a command that is half read.
--   Interactions are in Reading, Wire, Exchange, Range, Session and Connection, in Broadcast.Heard
--   for the discovery, and in Examples.Streaming.Wire.
-- Examples (ether-dream/examples, dac-emulator/examples): Wave and Streaming are dac_stream.rs,
--   Enumerate is enumerate_dacs.rs, Listening is recv_dac_broadcasts.rs, Visualiser and View are
--   dac_emulator_visualiser.rs, Default is dac_emulator_default.rs, and Running joins the
--   broadcaster and the listener of these two; future::join is a parameter (WaitsForBoth). `f32` is
--   a parameter (F32, Drawing). Streaming.Show has the streaming example beside the emulator, as
--   steps, Opening and Starting its first two submissions, and Played what comes out of the DAC.
-- Tests: the theorems at concrete values.
--
-- Bounds and fuel: the loop of emit_points runs on fuel, and the nanoseconds from the moment that
-- is due to the clock are enough when the interval is positive. The loop of the streaming example
-- and its wait for a first broadcast have fuel without a bound: the loop is meant to go on for ever,
-- and there may be no broadcast. All else is structural recursion, or follows a list of what
-- happens: messages, connections, readings of a clock, or the rounds of a schedule. A `usize` is taken as 64 bits wide, and additions wrap as in a release
-- build.
--
-- Not modelled: the async runtime, its threads and how it polls futures; nannou's window; and what
-- the examples print but for what is named above.
pub mod Base
pub mod Io
pub mod Protocol
pub mod Dac
pub mod Client
pub mod Emulator
pub mod Examples
pub mod Tests
