-- ===== src/Client/Connect.antt =====
-- `connect` and `connect_timeout` of ether-dream/src/dac/stream.rs: `connect_inner` with either way to
-- make the TCP connection, which is the operating system's. A duration is in nanoseconds.
use ether_dream.Base.{ℕ, Result}
use ether_dream.Io.{IoError}
use ether_dream.Io.Bytes.{Bytes}
use ether_dream.Io.Reader.{ReadBytesExt}
use ether_dream.Protocol.{DacBroadcast}
use ether_dream.Dac.Bitflags.{Bitflags}
use ether_dream.Client.{Stream, CommunicationError}
use ether_dream.Client.Tcp.{TcpStream}
use ether_dream.Client.Submit.{connect_inner}

module _ {Ip : Type 0} ⦃f : Bitflags⦄ ⦃rd : ReadBytesExt Bytes⦄
    (set_nodelay : TcpStream → Result IoError (Unit {0})) where
  unfoldable pub connect :
      (tcp_connect : Ip × ℕ → Result IoError TcpStream)
      → DacBroadcast
      → Ip
      → Result CommunicationError Stream
  connect tcp_connect broadcast dac_ip = connect_inner broadcast dac_ip tcp_connect set_nodelay

  unfoldable pub connect_timeout :
      (tcp_connect_timeout : Ip × ℕ → ℕ → Result IoError TcpStream)
      → DacBroadcast
      → Ip
      → (timeout : ℕ) → Result CommunicationError Stream
  connect_timeout tcp_connect_timeout broadcast dac_ip timeout =
      connect_inner broadcast dac_ip (λ addr. tcp_connect_timeout addr timeout) set_nodelay
