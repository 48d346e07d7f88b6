-- ===== src/Protocol/Command/Decode.antt =====
-- `ReadFromBytes` for the commands of ether-dream/src/protocol.rs. `read_*_fields` is the method
-- `read_fields`, which is called when the starting byte has been read.
use ether_dream.Base.{ℕ, zero, suc, List, [], ◌∷◌, ◌++◌, Bool, ◌||◌, ◌==◌, if◌then◌else◌}
use ether_dream.Io.{Io, pure, raise, invalid_data, ◌>>=◌}
use ether_dream.Io.Reader.{ReadBytesExt, read_u8, read_u16, read_u32, ReadFromBytes, read_bytes}
use ether_dream.Protocol.{DacPoint}
use ether_dream.Protocol.Decode.{dac_point_from_bytes}
use ether_dream.Protocol.Command.{
  PrepareStream, prepare_stream, Begin, PointRate, Data, Stop, stop, EmergencyStop, emergency_stop,
  ClearEmergencyStop, clear_emergency_stop, Ping, ping, prepare_stream_start_byte, begin_start_byte,
  point_rate_start_byte, data_start_byte, stop_start_byte, emergency_stop_start_byte,
  emergency_stop_alt_start_byte, clear_emergency_stop_start_byte, ping_start_byte,
}

module _ {R : Type 0} ⦃r : ReadBytesExt R⦄ where
  -- Read the starting byte; go on with `k` if it passes the test, and fail if not.
  unfoldable pub expect_start : (ℕ → Bool) → {A : Type 0} → Io R A → Io R A
  expect_start test k = do command ← read_u8; if test command then k else raise invalid_data

  unfoldable pub read_begin_fields : Io R Begin
  read_begin_fields = do
    low_water_mark ← read_u16
    point_rate ← read_u32
    pure (record { low_water_mark = low_water_mark; point_rate = point_rate })

  unfoldable pub read_point_rate_fields : Io R PointRate
  read_point_rate_fields = do rate ← read_u32; pure (record { rate = rate })

  unfoldable pub read_n_points : Io R ℕ
  read_n_points = read_u16

  -- The loop counts `n_points` down to 0 and pushes each point.
  unfoldable pub read_points : ℕ → List DacPoint → Io R (List DacPoint)
  read_points zero points = pure points
  read_points (suc n_points) points = do
    dac_point ← read_bytes {P = DacPoint}
    read_points n_points (points ++ dac_point ∷ [])

  unfoldable pub read_data_fields : Io R Data
  read_data_fields = do
    n_points ← read_n_points
    points ← read_points n_points []
    pure (record { points = points })

  unfoldable pub read_prepare_stream : Io R PrepareStream
  unfolding expect_start
  read_prepare_stream = expect_start (λ c. c == prepare_stream_start_byte) (pure prepare_stream)

  unfoldable pub read_begin : Io R Begin
  unfolding expect_start
  read_begin = expect_start (λ c. c == begin_start_byte) read_begin_fields

  unfoldable pub read_point_rate : Io R PointRate
  unfolding expect_start
  read_point_rate = expect_start (λ c. c == point_rate_start_byte) read_point_rate_fields

  unfoldable pub read_data : Io R Data
  unfolding expect_start
  read_data = expect_start (λ c. c == data_start_byte) read_data_fields

  unfoldable pub read_stop : Io R Stop
  unfolding expect_start
  read_stop = expect_start (λ c. c == stop_start_byte) (pure stop)

  -- Both starting bytes of the emergency stop are accepted.
  unfoldable pub read_emergency_stop : Io R EmergencyStop
  unfolding expect_start
  read_emergency_stop =
      expect_start (λ c. c == emergency_stop_start_byte || c == emergency_stop_alt_start_byte)
        (pure emergency_stop)

  unfoldable pub read_clear_emergency_stop : Io R ClearEmergencyStop
  unfolding expect_start
  read_clear_emergency_stop =
      expect_start (λ c. c == clear_emergency_stop_start_byte) (pure clear_emergency_stop)

  unfoldable pub read_ping : Io R Ping
  unfolding expect_start
  read_ping = expect_start (λ c. c == ping_start_byte) (pure ping)

  instance abbrev pub prepare_stream_from_bytes : ReadFromBytes R PrepareStream
  prepare_stream_from_bytes = record { read_from_bytes = read_prepare_stream }

  instance abbrev pub begin_from_bytes : ReadFromBytes R Begin
  begin_from_bytes = record { read_from_bytes = read_begin }

  instance abbrev pub point_rate_from_bytes : ReadFromBytes R PointRate
  point_rate_from_bytes = record { read_from_bytes = read_point_rate }

  instance abbrev pub data_from_bytes : ReadFromBytes R Data
  data_from_bytes = record { read_from_bytes = read_data }

  instance abbrev pub stop_from_bytes : ReadFromBytes R Stop
  stop_from_bytes = record { read_from_bytes = read_stop }

  instance abbrev pub emergency_stop_from_bytes : ReadFromBytes R EmergencyStop
  emergency_stop_from_bytes = record { read_from_bytes = read_emergency_stop }

  instance abbrev pub clear_emergency_stop_from_bytes : ReadFromBytes R ClearEmergencyStop
  clear_emergency_stop_from_bytes = record { read_from_bytes = read_clear_emergency_stop }

  instance abbrev pub ping_from_bytes : ReadFromBytes R Ping
  ping_from_bytes = record { read_from_bytes = read_ping }
