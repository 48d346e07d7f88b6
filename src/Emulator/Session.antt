-- ===== src/Emulator/Session.antt =====
-- A client's submission against the emulator, from the queue on the one side to the DAC's state on
-- the other and back.
use ether_dream.Base.{
  ℕ, ◌≤◌, ◌≡◌, ◌∙◌, refl, subst, ap, List, [], ◌∷◌, ◌++◌, map, All, length, some, ok,
}
use ether_dream.Io.{IoError}
use ether_dream.Io.Bytes.{Bytes}
use ether_dream.Io.Reader.{ReadBytesExt, ReadsLittleEndian}
use ether_dream.Io.Writer.{WriteBytesExt, WritesLittleEndian}
use ether_dream.Io.Slice.{slice_read, vec_write, SliceMut, slice_write}
use ether_dream.Protocol.{DacPoint, DacResponse, ack}
use ether_dream.Protocol.Layout.{IsStatus}
use ether_dream.Dac.Convert.{status_to_protocol}
use ether_dream.Dac.Command.RoundTrip.{IsCommand}
use ether_dream.Emulator.Range.{process_all-IsResponse}
use ether_dream.Dac.{Addressed}
use ether_dream.Dac.Bitflags.{Bitflags, DropsUnknownBits}
use ether_dream.Dac.Conversion.{HasKnownFlags}
use ether_dream.Client.{Stream, CommandQueue, QueuedCommand}
use ether_dream.Client.View.{view, start_byte, IsQueue, queued, commands_bytes}
use ether_dream.Client.Receiving.{responses_bytes, settle}
use ether_dream.Client.Submit.{submit}
use ether_dream.Client.Submission.{expected, submit_lem}
use ether_dream.Emulator.{Shared, InterpretedCommand, known}
use ether_dream.Emulator.Process.{status_of, echo_byte}
use ether_dream.Emulator.Interpret.{Tcp}
use ether_dream.Emulator.Run.{process_all, updated, Mirrors, settle-process_all}
use ether_dream.Emulator.Wire.{emulated, echo_byte-emulated}
use ether_dream.Emulator.Exchange.{serve, FitsIn, serve_lem}

-- What the emulator makes of the commands that are queued.
abbrev pub handled : CommandQueue → Shared → List DacResponse × Shared
handled q s = process_all (map (λ c. known (emulated c)) (queued q)) s

known-emulated :
    (cs : List ether_dream.Dac.Command.Command)
    → map known (map emulated cs) ≡ map (λ c. known (emulated c)) cs
known-emulated [] = refl
known-emulated (c ∷ cs) = ap (λ r. known (emulated c) ∷ r) (known-emulated cs)

echo_byte-expected :
    (points : List DacPoint) (cs : List QueuedCommand)
    → map echo_byte (map emulated (map (view points) cs)) ≡ map (λ c. start_byte (view points c)) cs
echo_byte-expected points [] = refl
echo_byte-expected points (c ∷ cs) =
    rw (echo_byte-emulated (view points c), echo_byte-expected points cs)

emulated-none : (cs : List ether_dream.Dac.Command.Command) → map emulated cs ≡ [] → cs ≡ []
emulated-none [] h = refl
emulated-none (c ∷ cs) h = cc

-- The client's side of a round in which every command is accepted.
settle-handled :
    ⦃f : Bitflags⦄ (laws : DropsUnknownBits f) (e : IoError) (q : CommandQueue) (s : Shared)
    → HasKnownFlags (status_of s)
    → (queued q ≡ [] → q.stream.dac.status ≡ status_of s)
    → All (λ d. d.response ≡ ack) (handled q s).0
    → Mirrors q.stream.dac (handled q s).1 (settle e (expected q) (handled q s).0 q.stream.dac)
settle-handled laws e q s flags same accepted =
    let cs = map emulated (queued q) in
    let P = λ (is : List InterpretedCommand) (bs : List ℕ).
      All (λ d. d.response ≡ ack) (process_all is s).0
      → Mirrors q.stream.dac (process_all is s).1 (settle e bs (process_all is s).0 q.stream.dac) in
    let one : P (map known cs) (map echo_byte cs) =
      settle-process_all laws e cs s q.stream.dac flags
        (λ empty. same (emulated-none (queued q) empty)) in
    let two = subst (λ is. P is (map echo_byte cs)) (known-emulated (queued q)) one in
    subst (P (map (λ c. known (emulated c)) (queued q)))
      (echo_byte-expected q.stream.point_buffer q.stream.command_buffer) two accepted

FitsIn-IsCommand :
    (size : ℕ) (cs : List ether_dream.Dac.Command.Command) → All (FitsIn size) cs → All IsCommand cs
FitsIn-IsCommand size [] h = tt
FitsIn-IsCommand size (c ∷ cs) ((hc, fits), hs) = (hc, FitsIn-IsCommand size cs hs)

-- Both ends after the round.
pub record Completes (q : CommandQueue) (s : Shared) (t : Tcp) (after : Stream) (served : Tcp)
    : Type 0 where
  pub requested : after.tcp_stream.sent ≡ q.stream.tcp_stream.sent ++ commands_bytes (queued q)
  pub answered : served.stream.sent ≡ t.stream.sent ++ responses_bytes (handled q s).0
  pub up_to_date : after.dac ≡ updated q.stream.dac (handled q s).1
  pub client_done : after.tcp_stream.incoming ≡ []
  pub emulator_done : served.stream.incoming ≡ []

-- The byte stream of one round between the client and the emulator, with both ends modelled. If
-- the client knows the DAC's status or has something queued, the queue's ranges are in its point
-- buffer, every queued command has its fields in range and fits the emulator's buffer, which has
-- room for a response too, no call of `write` is short and every byte has arrived, the DAC's
-- flags are declared ones and its status is in range, and the emulator accepts every command:
-- then `submit` ends in success having sent exactly the queued commands, the emulator ends in
-- success having answered each, both have read every byte, and the status that the client holds
-- is again the DAC's. The `byteorder` methods are little endian, and `from_bits_truncate` drops
-- the undeclared bits.
pub submit-serve :
    ⦃f : Bitflags⦄ ⦃r : ReadBytesExt Bytes⦄ ⦃v : WriteBytesExt Bytes⦄ ⦃w : WriteBytesExt SliceMut⦄
    (laws : DropsUnknownBits f) (reads : ReadsLittleEndian slice_read r)
    (vec_writes : WritesLittleEndian vec_write v) (slice_writes : WritesLittleEndian slice_write w)
    (q : CommandQueue) (s : Shared) (t : Tcp)
    → IsQueue q
    → All (FitsIn (length t.bytes)) (queued q)
    → 22 ≤ length t.bytes
    → q.stream.tcp_stream.outcomes ≡ []
    → t.stream.outcomes ≡ []
    → t.peeks ≡ []
    → HasKnownFlags (status_of s)
    → (queued q ≡ [] → q.stream.dac.status ≡ status_of s)
    → IsStatus (status_to_protocol (status_of s))
    → All (λ d. d.response ≡ ack) (handled q s).0
    → t.stream.incoming ≡ commands_bytes (queued q)
    → q.stream.tcp_stream.incoming ≡ responses_bytes (handled q s).0
    → (after : Stream) × (served : Tcp) × (submit q ≡ some (ok tt, after))
      × (serve (length (queued q)) s t ≡ some (ok tt, (handled q s).1, served))
      × Completes q s t after served
unfolding responses_bytes
submit-serve laws reads vec_writes slice_writes q s t can fit room free whole unpeeked flags same
      range accepted requests answers =
    let valid =
      process_all-IsResponse (queued q) s (FitsIn-IsCommand (length t.bytes) (queued q) fit)
        range in
    let (result, after, submits, requested, submitted) =
      submit_lem reads vec_writes q (handled q s).0 can free valid answers in
    let (well, status, unread) =
      settle-handled laws q.stream.tcp_stream.read_error q s flags same accepted in
    let (served, serves, answered) =
      serve_lem slice_writes reads (length t.bytes) (queued q) s t refl room fit unpeeked whole
        requests in
    (
      after,
      served,
      submits ∙ ap (λ x. some (x, after)) (submitted.settled.0 ∙ well),
      serves,
      record {
        requested = requested;
        answered = ap (λ x. x.sent) answered.stream;
        up_to_date = submitted.settled.1 ∙ status;
        client_done = submitted.settled.2 ∙ ap responses_bytes unread;
        emulator_done = ap (λ x. x.incoming) answered.stream;
      },
    )
