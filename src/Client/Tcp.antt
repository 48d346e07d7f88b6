-- ===== src/Client/Tcp.antt =====
-- `std::net::TcpStream`, as the client uses it.
use ether_dream.Base.{
  ℕ, List, [], ◌∷◌, ◌++◌, length, take, drop, leb, if◌then◌else◌, Result, ok, err,
}
use ether_dream.Io.{IoError}
use ether_dream.Io.Bytes.{Bytes}

-- What the operating system makes of one call of `write`: it takes so many of the bytes, at most
-- all, or fails.
pub data WriteOutcome : Type 0 where
  accepts : ℕ → WriteOutcome
  fails : IoError → WriteOutcome

-- `sent` is what the peer gets. `incoming` is what the peer sends until it stops or a timeout
-- passes, and `read_error` the error that a read meets then. `outcomes` is the fate of the next
-- calls of `write`; past its end every call takes all its bytes.
pub record TcpStream : Type 0 where
  pub sent : Bytes
  pub incoming : Bytes
  pub read_error : IoError
  pub outcomes : List WriteOutcome

write_with : WriteOutcome → Bytes → TcpStream → Result IoError ℕ × TcpStream
write_with (accepts n) xs s =
    let taken = take n xs in (ok (length taken), record s { sent = s.sent ++ taken })
write_with (fails e) xs s = (err e, s)

next_write : List WriteOutcome → Bytes → TcpStream → Result IoError ℕ × TcpStream
next_write [] xs s = (ok (length xs), record s { sent = s.sent ++ xs })
next_write (o ∷ os) xs s = write_with o xs (record s { outcomes = os })

-- `Write::write`: the number of bytes that were taken may be less than the number given.
unfoldable pub write : Bytes → TcpStream → Result IoError ℕ × TcpStream
unfolding next_write write_with
write xs s = next_write s.outcomes xs s

-- `Read::read_exact`. A read that fails has taken what there was.
unfoldable pub read_exact : ℕ → TcpStream → Result IoError Bytes × TcpStream
read_exact n s =
    if leb n (length s.incoming)
    then (ok (take n s.incoming), record s { incoming = drop n s.incoming })
    else (err s.read_error, record s { incoming = [] })
