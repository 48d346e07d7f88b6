-- ===== src/Emulator/Setup.antt =====
-- dac-emulator/src/lib.rs, `Listener` of listener.rs and `Stream::new` of stream.rs. The sockets of
-- the operating system are parameters: `U` and `L` are the types of a UDP socket and a TCP listener.
use ether_dream.Base.{ℕ, ◌+◌, ◌*◌, [], replicate, Option, none, some, Result, ok, err, and_then}
use ether_dream.Io.{IoError}
use ether_dream.Io.Bytes.{Bytes}
use ether_dream.Io.Writer.{WriteBytesExt, write_bytes}
use ether_dream.Io.Slice.{SliceMut, contents}
use ether_dream.Protocol.{
  DacStatus, MacBytes, DacResponse, light_engine_ready, playback_idle, source_network_streaming,
  ack, dac_point_size_bytes, dac_response_size_bytes, dac_broadcast_size_bytes, broadcast_port,
  communication_port,
}
use ether_dream.Protocol.Encode.{dac_response_to_bytes}
use ether_dream.Protocol.Command.{ping_start_byte}
use ether_dream.Dac.{MacAddress, Status, Addressed}
use ether_dream.Dac.Bitflags.{Bitflags}
use ether_dream.Dac.Convert.{status_from_protocol, status_to_protocol}
use ether_dream.Dac.Mac.{mac_from}
use ether_dream.Client.Tcp.{TcpStream, write}
use ether_dream.Emulator.{Shared, default_state}
use ether_dream.Emulator.Interpret.{Tcp}

-- The module `default`.
abbrev default_mac_address : MacBytes
default_mac_address = record { b0 = 0x12; b1 = 0x34; b2 = 0x56; b3 = 0x78; b4 = 0x9a; b5 = 0xbc }

abbrev default_max_point_rate : ℕ
default_max_point_rate = 100_000

abbrev default_hw_revision : ℕ
default_hw_revision = 0

abbrev default_sw_revision : ℕ
default_sw_revision = 0

abbrev pub default_buffer_capacity : ℕ
default_buffer_capacity = 1800

abbrev default_broadcaster_bind_port : ℕ
default_broadcaster_bind_port = 9001

-- `net::Ipv4Addr`.
pub record Ipv4Addr : Type 0 where
  pub a : ℕ
  pub b : ℕ
  pub c : ℕ
  pub d : ℕ

abbrev default_broadcast_ip : Ipv4Addr
default_broadcast_ip = record { a = 255; b = 255; c = 255; d = 255 }

abbrev pub unspecified_ip : Ipv4Addr
unspecified_ip = record { a = 0; b = 0; c = 0; d = 0 }

-- `net::SocketAddrV4`.
pub record SocketAddr : Type 0 where
  pub ip : Ipv4Addr
  pub port : ℕ

pub record Description : Type 0 where
  pub mac_address : MacAddress
  pub max_point_rate : ℕ
  pub hw_revision : ℕ
  pub sw_revision : ℕ
  pub buffer_capacity : ℕ
  pub broadcast_ip : Ipv4Addr
  pub broadcaster_bind_port : ℕ

unfoldable pub default_description : Description
default_description = record {
  mac_address = mac_from default_mac_address;
  max_point_rate = default_max_point_rate;
  hw_revision = default_hw_revision;
  sw_revision = default_sw_revision;
  buffer_capacity = default_buffer_capacity;
  broadcast_ip = default_broadcast_ip;
  broadcaster_bind_port = default_broadcaster_bind_port;
}

unfoldable pub initial_status : DacStatus
initial_status = record {
  protocol = 0;
  light_engine_state = light_engine_ready;
  playback_state = playback_idle;
  source = source_network_streaming;
  light_engine_flags = 0;
  playback_flags = 0;
  source_flags = 0;
  buffer_fullness = 0;
  point_rate = 0;
  point_count = 0;
}

pub record Broadcaster (U : Type 0) : Type 0 where
  pub dac : Addressed
  pub udp_socket : U
  pub broadcast_addr : SocketAddr
  pub bytes : Bytes

-- The stream that `Listener` keeps, `Stream` of stream.rs.
pub record Stream : Type 0 where
  pub tcp : Tcp
  pub shared : Shared

pub record Listener (L : Type 0) : Type 0 where
  pub dac : Addressed
  pub tcp_listener : L
  pub stream : Option Stream

-- `Stream::new`: the buffer for commands is as large as the largest `Data` command that fits the
-- DAC's buffer.
unfoldable pub stream_new : Addressed → TcpStream → Stream
stream_new dac stream =
    let max_command_size = 1 + 2 + dac.buffer_capacity * dac_point_size_bytes in
    record {
      tcp = record { stream = stream; peeks = []; bytes = replicate max_command_size 0 };
      shared = record { dac = dac; state = default_state };
    }

-- `Stream::dac`.
unfoldable pub stream_dac : Stream → Addressed
stream_dac self = self.shared.dac

module _ {U : Type 0} where
  unfoldable pub broadcaster_new :
      (bind : SocketAddr → Result IoError U)
      → (set_broadcast : U → Result IoError (Unit {0})) → Addressed
      → ℕ
      → Ipv4Addr
      → Result IoError (Broadcaster U)
  broadcaster_new bind set_broadcast dac bind_port broadcast_ip =
      and_then (bind (record { ip = unspecified_ip; port = bind_port })) λ udp_socket.
        and_then (set_broadcast udp_socket) λ _. ok (record {
          dac = dac;
          udp_socket = udp_socket;
          broadcast_addr = record { ip = broadcast_ip; port = broadcast_port };
          bytes = replicate dac_broadcast_size_bytes 0;
        })

unfoldable pub listener_new :
    {L : Type 0} → (bind : SocketAddr → Result IoError L) → Addressed → Result IoError (Listener L)
listener_new bind dac =
    and_then (bind (record { ip = unspecified_ip; port = communication_port }))
      λ tcp_listener. ok (record { dac = dac; tcp_listener = tcp_listener; stream = none })

-- The DAC of a description, at a status.
abbrev pub described : Description → Status → Addressed
described d status = record {
  mac_address = d.mac_address;
  dac = record {
    hw_revision = d.hw_revision;
    sw_revision = d.sw_revision;
    buffer_capacity = d.buffer_capacity;
    max_point_rate = d.max_point_rate;
    status = status;
  };
}

-- `new`; `none` is the panic of `expect`.
unfoldable pub new :
    ⦃f : Bitflags⦄ {U L : Type 0}
    → (bind_udp : SocketAddr → Result IoError U) → (set_broadcast : U → Result IoError (Unit {0}))
    → (bind_tcp : SocketAddr → Result IoError L) → Description
    → Option (Result IoError (Broadcaster U × Listener L))
unfolding broadcaster_new listener_new
new bind_udp set_broadcast bind_tcp d = elim (status_from_protocol initial_status) [
  | err _ ↦ none
  | ok status ↦
      let dac = described d status in
      some (
        and_then (broadcaster_new bind_udp set_broadcast dac d.broadcaster_bind_port d.broadcast_ip)
          λ broadcaster.
            and_then (listener_new bind_tcp dac) λ listener. ok (broadcaster, listener))
]

-- The response that greets a client, as though to a `Ping`.
unfoldable pub greeting : Addressed → DacResponse
greeting dac = record {
  response = ack;
  command = ping_start_byte;
  dac_status = status_to_protocol dac.status;
}

-- What a failed call leaves of the connection does not matter: it is dropped.
sent_greeting : Addressed → Result IoError ℕ × TcpStream → Result IoError Stream
unfolding stream_new
sent_greeting dac (ok _, s) = ok (stream_new dac s)
sent_greeting dac (err e, s) = err e

-- `Listener::accept` from the accepted connection on. `set_options` stands for the two timeouts and
-- `TCP_NODELAY`.
unfoldable pub accept :
    {L : Type 0} ⦃w : WriteBytesExt SliceMut⦄
    → (accept_tcp : L → Result IoError (TcpStream × SocketAddr))
    → (set_options : TcpStream → Result IoError (Unit {0})) → Listener L
    → Result IoError (Listener L × Stream × SocketAddr)
unfolding greeting sent_greeting
accept accept_tcp set_options self = and_then (accept_tcp self.tcp_listener) λ accepted.
    and_then (set_options accepted.0) λ _.
      and_then
        (write_bytes {W = SliceMut} (greeting self.dac)
          (record { written = []; left = replicate dac_response_size_bytes 0 }))
        λ encoded.
          and_then (sent_greeting self.dac (write (contents encoded.1) accepted.0))
            λ stream. ok (record self { stream = some stream }, stream, accepted.1)
