-- ===== src/Tests.antt =====
-- Concrete values, after tests/protocol.rs of ether-dream and the defaults of dac-emulator, and
-- instances of the parameters: the children apply the theorems to them.
pub mod Wire
pub mod Conversion
pub mod Host
pub mod Device
pub mod History
pub mod Session
pub mod Setup
pub mod Rounds
pub mod Rate
pub mod Programs
pub mod Playing
pub mod Starting
pub mod Running
use native.Mathlib.Nat.{pow-suc}
use ether_dream.Base.{ℕ, zero, suc, ◌+◌, ◌-◌, ◌%◌, ◌^◌, ◌<◌, ◌≡◌, refl, arith, List, [], ◌∷◌, none}
use ether_dream.Base.Int.{pos, negsuc}
use ether_dream.Io.{IoError, timed_out}
use ether_dream.Io.Bytes.{Bytes}
use ether_dream.Io.Reader.{ReadBytesExt}
use ether_dream.Io.Writer.{WriteBytesExt}
use ether_dream.Io.Slice.{SliceMut, vec_write, slice_write}
use ether_dream.Io.Standard.{slice_reader, writer_to}
use ether_dream.Protocol.{
  DacStatus, MacBytes, DacBroadcast, DacPoint, DacResponse, ack, light_engine_ready, playback_idle,
  source_network_streaming,
}
use ether_dream.Protocol.Layout.{IsStatus, IsPoint, IsBroadcast, IsResponse}
use ether_dream.Dac.{
  Status, Addressed, LightEngine, Playback, ready, idle, prepared, network_streaming,
}
use ether_dream.Dac.Bitflags.{Bitflags, DropsUnknownBits}
use ether_dream.Dac.Conversion.{HasKnownFlags}
use ether_dream.Client.Tcp.{TcpStream}
use ether_dream.Emulator.{Shared}

instance abbrev pub reader : ReadBytesExt Bytes
reader = slice_reader

instance abbrev pub vec_writer : WriteBytesExt Bytes
vec_writer = writer_to vec_write

instance abbrev pub slice_writer : WriteBytesExt SliceMut
slice_writer = writer_to slice_write

instance abbrev pub flags : Bitflags
flags = record { from_bits_truncate = λ all n. n % (all + 1) }

pow-pos : (k : ℕ) → 0 < 2 ^ k
pow-pos zero = omega arith
pow-pos (suc k) = omega (arith, pow-suc 2 k, pow-pos k)

pub flags_laws : DropsUnknownBits flags
flags_laws = record {
  low_bits = λ k n. let whole : 2 ^ k - 1 + 1 ≡ 2 ^ k = omega (arith, pow-pos k) in rw whole refl;
}

abbrev pub status : DacStatus
status = record {
  protocol = 1;
  light_engine_state = light_engine_ready;
  playback_state = playback_idle;
  source = source_network_streaming;
  light_engine_flags = 0;
  playback_flags = 0;
  source_flags = 0;
  buffer_fullness = 0;
  point_rate = 0;
  point_count = 0;
}

pub status-IsStatus : IsStatus status
status-IsStatus = ground arith

abbrev pub point : DacPoint
point = record {
  control = 0;
  x = negsuc 1023;
  y = pos 12345;
  i = 7;
  r = 60000;
  g = 50000;
  b = 40000;
  u1 = 1;
  u2 = 2;
}

pub point-IsPoint : IsPoint point
point-IsPoint = ground arith

abbrev pub mac : MacBytes
mac = record { b0 = 0x01; b1 = 0x23; b2 = 0x45; b3 = 0x67; b4 = 0x89; b5 = 0xab }

abbrev pub broadcast : DacBroadcast
broadcast = record {
  mac_address = mac;
  hw_revision = 1;
  sw_revision = 1;
  buffer_capacity = 65535;
  max_point_rate = 40_000;
  dac_status = status;
}

pub broadcast-IsBroadcast : IsBroadcast broadcast
broadcast-IsBroadcast = ground arith

abbrev pub accepted : DacResponse
accepted = record { response = ack; command = 0x70; dac_status = status }

pub accepted-IsResponse : IsResponse accepted
accepted-IsResponse = ground arith

-- A DAC whose stream is prepared, and whose buffer holds `fullness` points.
abbrev pub prepared_status : ℕ → Status
prepared_status fullness = record {
  protocol = 1;
  light_engine = ready;
  playback = prepared;
  data_source = network_streaming;
  light_engine_flags = record { bits = 0 };
  playback_flags = record { bits = 0 };
  buffer_fullness = fullness;
  point_rate = 0;
  point_count = 0;
}

pub prepared_status-HasKnownFlags : (n : ℕ) → HasKnownFlags (prepared_status n)
prepared_status-HasKnownFlags n = ground arith

abbrev pub dac_at : Status → Addressed
dac_at s = record {
  mac_address = record { bytes = mac };
  dac = record {
    hw_revision = 0;
    sw_revision = 0;
    buffer_capacity = 2;
    max_point_rate = 100_000;
    status = s;
  };
}

-- A DAC that can hold two points, and holds one.
abbrev pub shared : Shared
shared = record {
  dac = dac_at (prepared_status 1);
  state = record { next_point_emission = none; buffer = point ∷ [] };
}

-- A connection on which nothing was sent, and `bytes` wait to be read.
abbrev pub connection : Bytes → TcpStream
connection bytes = record { sent = []; incoming = bytes; read_error = timed_out; outcomes = [] }

abbrev pub closed : TcpStream → TcpStream
closed s = record s { incoming = [] }
