-- ===== src/Client/Options.antt =====
-- The options of the TCP stream that `Stream` of ether-dream/src/dac/stream.rs passes on. They are the
-- operating system's, and a parameter; a duration is in nanoseconds.
use ether_dream.Base.{ℕ, Option, Bool, Result, ok, err}
use ether_dream.Io.{IoError}
use ether_dream.Dac.{Addressed}
use ether_dream.Client.{Stream}
use ether_dream.Client.Tcp.{TcpStream}

-- The methods of `std::net::TcpStream`.
pub record TcpOptions : Type 0 where
  pub set_nodelay_of : Bool → TcpStream → Result IoError (Unit {0}) × TcpStream
  pub nodelay_of : TcpStream → Result IoError Bool
  pub set_ttl_of : ℕ → TcpStream → Result IoError (Unit {0}) × TcpStream
  pub ttl_of : TcpStream → Result IoError ℕ
  pub set_read_timeout_of : Option ℕ → TcpStream → Result IoError (Unit {0}) × TcpStream
  pub set_write_timeout_of : Option ℕ → TcpStream → Result IoError (Unit {0}) × TcpStream

-- `Stream::dac`.
unfoldable pub dac : Stream → Addressed
dac self = self.dac

module _ (os : TcpOptions) where
  on_stream : Stream → Result IoError (Unit {0}) × TcpStream → Result IoError (Unit {0}) × Stream
  on_stream self (result, tcp_stream) = (result, record self { tcp_stream = tcp_stream })

  unfoldable pub set_nodelay : Bool → Stream → Result IoError (Unit {0}) × Stream
  unfolding on_stream
  set_nodelay b self = on_stream self (os.set_nodelay_of b self.tcp_stream)

  unfoldable pub nodelay : Stream → Result IoError Bool
  nodelay self = os.nodelay_of self.tcp_stream

  unfoldable pub set_ttl : ℕ → Stream → Result IoError (Unit {0}) × Stream
  unfolding on_stream
  set_ttl ttl self = on_stream self (os.set_ttl_of ttl self.tcp_stream)

  unfoldable pub ttl : Stream → Result IoError ℕ
  ttl self = os.ttl_of self.tcp_stream

  unfoldable pub set_read_timeout : Option ℕ → Stream → Result IoError (Unit {0}) × Stream
  unfolding on_stream
  set_read_timeout duration self = on_stream self (os.set_read_timeout_of duration self.tcp_stream)

  unfoldable pub set_write_timeout : Option ℕ → Stream → Result IoError (Unit {0}) × Stream
  unfolding on_stream
  set_write_timeout duration self =
      on_stream self (os.set_write_timeout_of duration self.tcp_stream)

  -- Where the first call fails, the second is not made.
  unfoldable pub set_timeout : Option ℕ → Stream → Result IoError (Unit {0}) × Stream
  unfolding set_read_timeout set_write_timeout
  set_timeout duration self =
      let (result, after) = set_read_timeout duration self in
      elim result [ err e ↦ (err e, after) | ok _ ↦ set_write_timeout duration after ]
