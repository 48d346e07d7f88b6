-- ===== src/Emulator/Connection.antt =====
-- How a connection starts: the emulator as it is created, its greeting, and the client's view of it.
use ether_dream.Base.{
  ℕ, ◌^◌, ◌<◌, ◌≡◌, refl, arith, [], ◌++◌, append-nil, length, replicate, none, some, Result, ok,
}
use ether_dream.Io.{IoError}
use ether_dream.Io.Bytes.{Bytes}
use ether_dream.Io.Fill.{Writes-fills}
use ether_dream.Io.Reader.{ReadBytesExt, ReadsLittleEndian}
use ether_dream.Io.Writer.{WriteBytesExt, WritesLittleEndian}
use ether_dream.Io.Slice.{slice_read, SliceMut, slice_write}
use ether_dream.Protocol.{
  DacBroadcast, dac_response_size_bytes, dac_broadcast_size_bytes, broadcast_port,
  communication_port,
}
use ether_dream.Protocol.Layout.{response_bytes, IsStatus, IsResponse}
use ether_dream.Protocol.RoundTrip.{Writes-response}
use ether_dream.Protocol.Command.{ping_start_byte}
use ether_dream.Dac.{Addressed, ready, idle}
use ether_dream.Dac.Bitflags.{Bitflags, DropsUnknownBits}
use ether_dream.Dac.Convert.{status_to_protocol, status_from_protocol, from_broadcast}
use ether_dream.Dac.Conversion.{HasKnownFlags, status_from-to, status_from-HasKnownFlags}
use ether_dream.Dac.Update.{update_status_lem}
use ether_dream.Client.Tcp.{TcpStream}
use ether_dream.Client.Submit.{connect_inner}
use ether_dream.Client.Response.{
  Receiver, handle_response, accept_status, check_errors, nak_from_protocol,
}
use ether_dream.Client.Receiving.{recv_response_lem}
use ether_dream.Client.Sending.{write_whole}
use ether_dream.Emulator.Invariant.{IsSound}
use ether_dream.Emulator.Exchange.{length-response_bytes}
use ether_dream.Emulator.Setup.{
  SocketAddr, unspecified_ip, Description, Broadcaster, Listener, described, initial_status,
  stream_new, new, greeting, accept,
}

-- The status that the emulator starts with.
initial_status-accepted :
    ⦃f : Bitflags⦄ (laws : DropsUnknownBits f)
    → (s : ether_dream.Dac.Status) × (status_from_protocol initial_status ≡ ok s)
      × (s.buffer_fullness ≡ 0)
      × (s.light_engine ≡ ready)
      × (s.playback ≡ idle)
unfolding initial_status status_from_protocol
initial_status-accepted laws = (_, refl, refl, refl, refl)

-- What `new` makes of a description.
pub record Starts {U L : Type 0} (d : Description) (broadcaster : Broadcaster U)
    (listener : Listener L) : Type 0 where
  pub same_dac : broadcaster.dac ≡ listener.dac
  pub described : (status : ether_dream.Dac.Status) × (listener.dac ≡ described d status)
  pub no_stream : listener.stream ≡ none
  pub known_flags : HasKnownFlags listener.dac.status
  pub sound : (t : TcpStream) → IsSound (stream_new listener.dac t).shared

-- If the sockets can be bound and set up, and the capacity of the description is a `u16`, `new`
-- succeeds without a panic. Broadcaster and listener hold the same DAC, which is that of the
-- description with flags that are declared ones; the listener has no stream; and every stream
-- that is made for it starts in a sound state.
pub new-Starts :
    ⦃f : Bitflags⦄ (laws : DropsUnknownBits f) {U L : Type 0}
    (bind_udp : SocketAddr → Result IoError U) (set_broadcast : U → Result IoError (Unit {0}))
    (bind_tcp : SocketAddr → Result IoError L) (d : Description) {u : U} {l : L}
    → d.buffer_capacity < 2 ^ 16
    → bind_udp (record { ip = unspecified_ip; port = d.broadcaster_bind_port }) ≡ ok u
    → set_broadcast u ≡ ok tt
    → bind_tcp (record { ip = unspecified_ip; port = communication_port }) ≡ ok l
    → (broadcaster : Broadcaster U) × (listener : Listener L) × (new bind_udp set_broadcast bind_tcp
          d
        ≡ some (ok (broadcaster, listener)))
      × Starts d broadcaster listener
unfolding new stream_new
new-Starts laws {U} {L} bind_udp set_broadcast bind_tcp d {u} {l} capacity udp broad tcp =
    let (s, accepted, empty, engine, play) = initial_status-accepted laws in
    let dac = described d s in
    let broadcaster : Broadcaster U = record {
      dac = dac;
      udp_socket = u;
      broadcast_addr = record { ip = d.broadcast_ip; port = broadcast_port };
      bytes = replicate dac_broadcast_size_bytes 0;
    } in
    let listener : Listener L = record { dac = dac; tcp_listener = l; stream = none } in
    (
      broadcaster,
      listener,
      rw (new, accepted, udp, broad, tcp) refl,
      record {
        same_dac = refl;
        described = (s, refl);
        no_stream = refl;
        known_flags = status_from-HasKnownFlags laws initial_status accepted;
        sound = λ t. record {
          capacity = capacity;
          bounded = omega arith;
          counted = empty;
          engine = λ moving. engine;
        };
      },
    )

-- If a connection comes in, its options can be set and no call of `write` is short, `accept`
-- succeeds: it has sent the greeting and nothing else, and keeps and yields the new stream.
pub accept_lem :
    {L : Type 0} ⦃w : WriteBytesExt SliceMut⦄ (writes : WritesLittleEndian slice_write w)
    (accept_tcp : L → Result IoError (TcpStream × SocketAddr))
    (set_options : TcpStream → Result IoError (Unit {0})) (self : Listener L) (t : TcpStream)
    (source : SocketAddr)
    → accept_tcp self.tcp_listener ≡ ok (t, source)
    → set_options t ≡ ok tt
    → t.outcomes ≡ []
    → let stream =
        stream_new self.dac (record t { sent = t.sent ++ response_bytes (greeting self.dac) }) in
      accept accept_tcp set_options self ≡ ok (record self { stream = some stream }, stream, source)
unfolding accept
accept_lem writes accept_tcp set_options self t source incoming options free =
    let zeros : Bytes = replicate dac_response_size_bytes 0 in
    let size : length (response_bytes (greeting self.dac)) ≡ length zeros =
      length-response_bytes (greeting self.dac) in
    rw
      (
        incoming,
        options,
        Writes-fills zeros (Writes-response writes (greeting self.dac)) size,
        append-nil,
        write_whole (response_bytes (greeting self.dac)) t free,
      )
      refl

handle_response-greeting :
    ⦃f : Bitflags⦄ (laws : DropsUnknownBits f) (dac : Addressed) (r : Receiver)
    → HasKnownFlags dac.status
    → handle_response ping_start_byte r (greeting dac)
      ≡ (ok tt, record r { dac = record r.dac { dac = record r.dac.dac { status = dac.status } } })
unfolding handle_response accept_status check_errors nak_from_protocol greeting
handle_response-greeting laws dac r flags =
    rw
      (update_status_lem r.dac.dac (status_to_protocol dac.status)
        (status_from-to laws dac.status flags))
      refl

greeting-IsResponse :
    (dac : Addressed) → IsStatus (status_to_protocol dac.status) → IsResponse (greeting dac)
unfolding greeting
greeting-IsResponse dac range = record {
  response = omega arith;
  command = omega arith;
  dac_status = range;
}

-- If the broadcast is accepted, the connection is made, and what it brings starts with the
-- emulator's greeting for a DAC whose status has declared flags and is in range: `connect`
-- succeeds. The client then holds the status of the greeting over the rest of the broadcast, has
-- nothing queued, and has read no byte behind the greeting.
pub connect_inner-greeting :
    ⦃f : Bitflags⦄ ⦃r : ReadBytesExt Bytes⦄ (laws : DropsUnknownBits f)
    (reads : ReadsLittleEndian slice_read r) {Ip : Type 0} (broadcast : DacBroadcast) (ip : Ip)
    (connect : Ip × ℕ → Result IoError TcpStream)
    (set_nodelay : TcpStream → Result IoError (Unit {0})) (dac seen : Addressed) {t : TcpStream}
    (rest : Bytes)
    → from_broadcast broadcast ≡ ok seen
    → connect (ip, communication_port) ≡ ok t
    → set_nodelay t ≡ ok tt
    → t.incoming ≡ response_bytes (greeting dac) ++ rest
    → HasKnownFlags dac.status
    → IsStatus (status_to_protocol dac.status)
    → connect_inner broadcast ip connect set_nodelay
      ≡ ok (record {
        dac = record seen { dac = record seen.dac { status = dac.status } };
        tcp_stream = record t { incoming = rest };
        command_buffer = [];
        point_buffer = [];
        bytes = response_bytes (greeting dac);
      })
unfolding connect_inner
connect_inner-greeting laws reads broadcast ip connect set_nodelay dac seen {t} rest known connected
      nodelay incoming flags range =
    let r : Receiver = record { bytes = []; tcp_stream = t; dac = seen } in
    rw
      (
        known,
        connected,
        nodelay,
        recv_response_lem reads ping_start_byte r (greeting dac) rest
            (greeting-IsResponse dac range) incoming,
        handle_response-greeting laws dac
            (record r {
              bytes = response_bytes (greeting dac);
              tcp_stream = record t { incoming = rest };
            })
            flags,
      )
      refl
