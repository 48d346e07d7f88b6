-- ===== src/Emulator/Next/GivenUp.antt =====
-- What becomes of a command whose bytes are half read when the emission completes.
use ether_dream.Base.{ℕ, ◌≡◌, List, ◌∷◌, ◌++◌, Option, none, replicate, ok}
use ether_dream.Io.Bytes.{Bytes}
use ether_dream.Io.Reader.{ReadBytesExt}
use ether_dream.Io.Writer.{WriteBytesExt}
use ether_dream.Io.Slice.{SliceMut}
use ether_dream.Protocol.{DacPoint}
use ether_dream.Client.Tcp.{TcpStream}
use ether_dream.Client.Receiving.{responses_bytes}
use ether_dream.Emulator.{Shared}
use ether_dream.Emulator.Interpret.{Tcp}
use ether_dream.Emulator.Exchange.Refused.{refusal}
use ether_dream.Emulator.Next.{command, returns, pending, Left, next_points}

module _ (rate_interval : ℕ → Option ℕ) (fuel : ℕ) ⦃r : ReadBytesExt Bytes⦄
    ⦃w : WriteBytesExt SliceMut⦄ (shutdown : TcpStream → TcpStream) where
  -- The call returned the first points of the buffer, and the stream now starts with `b`. The next
  -- call refuses that byte in each of `n` rounds, and goes on waiting.
  pub record Misreads (n b : ℕ) (more : Bytes) (s : Shared) (t : Tcp) (left : Left) : Type 0 where
    pub points : List DacPoint
    pub outcome : left.outcome ≡ returns (ok points)
    pub in_order : points ++ left.shared.state.buffer ≡ s.state.buffer
    pub stream : left.tcp.stream ≡ record t.stream { incoming = b ∷ more }
    pub after : Tcp
    pub refused :
        next_points rate_interval fuel shutdown (replicate n (command none)) left.shared left.tcp
        ≡ record { outcome = pending; shared = left.shared; tcp = after }
    pub answered : after.stream ≡ record t.stream {
      sent = t.stream.sent ++ responses_bytes (replicate n (refusal b left.shared));
      incoming = b ∷ more;
    }
