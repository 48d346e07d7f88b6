-- ===== src/Tests/Setup.antt =====
-- Creation, connection and broadcasts at single values.
use ether_dream.Base.{
  ℕ, ◌<◌, ◌≡◌, refl, arith, List, [], ◌∷◌, ◌++◌, map, length, replicate, All, some, Result, ok, err,
  ◌^◌,
}
use ether_dream.Io.{IoError, timed_out}
use ether_dream.Io.Bytes.{Bytes}
use ether_dream.Io.Standard.{slice_reader_laws, writer_to_laws}
use ether_dream.Io.Slice.{slice_write}
use ether_dream.Protocol.Layout.{IsStatus, response_bytes}
use ether_dream.Dac.Convert.{status_to_protocol, from_broadcast}
use ether_dream.Client.Tcp.{TcpStream}
use ether_dream.Client.Submit.{connect_inner}
use ether_dream.Emulator.Setup.{
  SocketAddr, unspecified_ip, Broadcaster, Listener, default_description, new, greeting,
}
use ether_dream.Emulator.Broadcast.{
  Message, dac_changed, send_now, close, broadcast_of, run, announced, Delivers,
}
use ether_dream.Emulator.Broadcast.Heard.{Receives, seen, IsAnnounceable, run-seen}
use ether_dream.Client.Discovery.{RecvDacBroadcasts, items}
use ether_dream.Emulator.Connection.{Starts, new-Starts, connect_inner-greeting}
use ether_dream.Tests.{
  reader, slice_writer, flags, flags_laws, prepared_status, prepared_status-HasKnownFlags, dac_at,
  connection,
}

-- The operating system, where nothing fails.
abbrev bind : SocketAddr → Result IoError ℕ
bind a = ok a.port

abbrev set_option : {A : Type 0} → A → Result IoError (Unit {0})
set_option a = ok tt

default-small : default_description.buffer_capacity < 65536
unfolding default_description
default-small = omega arith

new_example :
    (b : Broadcaster ℕ) × (l : Listener ℕ) × (new bind set_option bind default_description
      ≡ some (ok (b, l)))
    × Starts default_description b l
new_example =
    new-Starts flags_laws bind set_option bind default_description default-small refl refl refl

abbrev peer : SocketAddr
peer = record { ip = unspecified_ip; port = 50000 }

-- The broadcast is from a moment before.
abbrev greeted : TcpStream
greeted = connection (response_bytes (greeting (dac_at (prepared_status 2))) ++ [])

abbrev connect_to : ℕ × ℕ → Result IoError TcpStream
connect_to a = ok greeted

prepared-IsStatus : IsStatus (status_to_protocol (prepared_status 2))
unfolding status_to_protocol
prepared-IsStatus = ground arith

from_broadcast-taken :
    from_broadcast (broadcast_of (dac_at (prepared_status 0))) ≡ ok (dac_at (prepared_status 0))
unfolding from_broadcast broadcast_of status_to_protocol
from_broadcast-taken = refl

connect_inner_example :
    connect_inner (broadcast_of (dac_at (prepared_status 0))) 7 connect_to set_option
    ≡ ok (record {
      dac = dac_at (prepared_status 2);
      tcp_stream = record greeted { incoming = [] };
      command_buffer = [];
      point_buffer = [];
      bytes = response_bytes (greeting (dac_at (prepared_status 2)));
    })
connect_inner_example =
    connect_inner-greeting flags_laws slice_reader_laws (broadcast_of (dac_at (prepared_status 0)))
      7 connect_to set_option (dac_at (prepared_status 2)) (dac_at (prepared_status 0)) []
      from_broadcast-taken refl refl refl (prepared_status-HasKnownFlags 2) prepared-IsStatus

-- A socket that keeps what was sent.
abbrev send_to : Bytes → SocketAddr → List Bytes → Result IoError ℕ × List Bytes
send_to bs a sent = (ok (length bs), sent ++ bs ∷ [])

abbrev log : List Bytes → List Bytes
log sent = sent

send_to-Delivers : Delivers send_to log
send_to-Delivers = record { accepted = λ bs a u. refl; logged = λ bs a u. refl }

abbrev messages : List Message
messages = send_now ∷ dac_changed (dac_at (prepared_status 2)) ∷ send_now ∷ close ∷ send_now ∷ []

abbrev broadcaster : Broadcaster (List Bytes)
broadcaster = record {
  dac = dac_at (prepared_status 0);
  udp_socket = [];
  broadcast_addr = peer;
  bytes = replicate 36 0;
}

-- The datagrams that wait, each with its sender.
abbrev inbox : List (Bytes × ℕ) → List (Bytes × ℕ)
inbox waiting = waiting

unfoldable recv_from : List (Bytes × ℕ) → Result IoError (Bytes × ℕ) × List (Bytes × ℕ)
recv_from [] = (err timed_out, [])
recv_from (datagram ∷ rest) = (ok datagram, rest)

recv_from-Receives : Receives recv_from inbox
unfolding recv_from
recv_from-Receives = record {
  takes = λ datagram rest u e. rw e refl;
  leaves = λ datagram rest u e. rw e refl;
}

abbrev listening_at : List (Bytes × ℕ) → RecvDacBroadcasts (List (Bytes × ℕ))
listening_at waiting = record { udp_socket = waiting; buffer = replicate 36 0 }

abbrev arrived : List (Bytes × ℕ)
arrived = map (λ bs. (bs, 5)) (run send_to messages broadcaster).1.udp_socket

dac_at-IsAnnounceable : (n : ℕ) → n < 2 ^ 16 → IsAnnounceable (dac_at (prepared_status n))
unfolding broadcast_of status_to_protocol
dac_at-IsAnnounceable n small = (prepared_status-HasKnownFlags n, ground arith)

announced-IsAnnounceable : All IsAnnounceable (announced broadcaster.dac messages)
unfolding announced
announced-IsAnnounceable =
    (dac_at-IsAnnounceable 0 (omega arith), (dac_at-IsAnnounceable 2 (omega arith), tt))

run-seen_example :
    map seen (items recv_from (length (announced broadcaster.dac messages)) (listening_at arrived))
    ≡ map (λ dac. some (dac, 5)) (announced broadcaster.dac messages)
run-seen_example =
    run-seen recv_from-Receives slice_reader_laws flags_laws send_to-Delivers
      (writer_to_laws slice_write) messages broadcaster (listening_at arrived) 5 refl refl refl
      announced-IsAnnounceable refl
