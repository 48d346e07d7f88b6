-- ===== src/Examples/Listening.antt =====
-- ether-dream/examples/recv_dac_broadcasts.rs: print what the iterator of the discovery yields.
use ether_dream.Base.{ℕ, List, Option, none, some, Result, ok, err}
use ether_dream.Io.{IoError}
use ether_dream.Io.Bytes.{Bytes}
use ether_dream.Io.Reader.{ReadBytesExt}
use ether_dream.Protocol.{DacBroadcast}
use ether_dream.Client.Discovery.{recv_dac_broadcasts, items}

-- `main`, up to `n` rounds of its loop, which does not end; `none` is the panic of `expect`. A line
-- stands for the value that it shows.
unfoldable pub print_broadcasts :
    {U Addr : Type 0} ⦃r : ReadBytesExt Bytes⦄
    → (bind : ℕ → Result IoError U) → (recv_from : U → Result IoError (Bytes × Addr) × U) → ℕ
    → Option (List (Result IoError (DacBroadcast × Addr)))
print_broadcasts bind recv_from n = elim (recv_dac_broadcasts bind) [
  | err e ↦ none
  | ok dac_broadcasts ↦ some (items recv_from n dac_broadcasts)
]
