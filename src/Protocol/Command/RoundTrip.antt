-- ===== src/Protocol/Command/RoundTrip.antt =====
-- The commands' readers and writers meet the layout.
use ether_dream.Base.{
  ℕ, ◌%◌, ◌^◌, ◌≤◌, ◌<◌, ◌≡◌, refl, arith, List, [], ◌∷◌, ◌++◌, append-nil, append_assoc, Bool,
  true, false, length, All, ltb,
}
use ether_dream.Io.{Io, err, raise, invalid_data}
use ether_dream.Io.Bytes.{Bytes, IsByte, le_bytes}
use ether_dream.Io.Reader.{ReadBytesExt, ReadsLittleEndian}
use ether_dream.Io.Writer.{Write, WriteBytesExt, WritesLittleEndian}
use ether_dream.Io.Slice.{slice_read}
use ether_dream.Io.Codec.{
  Reads, Reads-pure, Reads-bind, Reads-map, Reads-u8_then, Reads-u16_then, Writes, Writes-pure,
  Writes-then, Writes-u8, Writes-u16, reads_rules, writes_rules,
}
use ether_dream.Protocol.{DacPoint}
use ether_dream.Protocol.Layout.{IsPoint}
use ether_dream.Protocol.RoundTrip.{Reads-point, Writes-point}
use ether_dream.Protocol.Command.{
  PrepareStream, prepare_stream, Begin, PointRate, Data, Stop, stop, EmergencyStop, emergency_stop,
  EmergencyStopAlt, ClearEmergencyStop, clear_emergency_stop, Ping, ping, prepare_stream_start_byte,
  data_start_byte, stop_start_byte, emergency_stop_start_byte, emergency_stop_alt_start_byte,
  clear_emergency_stop_start_byte, ping_start_byte, u16_max,
}
use ether_dream.Protocol.Command.Layout.{
  lone_byte, begin_bytes, point_rate_bytes, points_bytes, data_bytes, IsBegin, IsPointRate, IsData,
}
use ether_dream.Protocol.Command.Encode.{
  write_prepare_stream, write_begin, write_point_rate, write_points, write_data, write_stop,
  write_emergency_stop, write_emergency_stop_alt, write_clear_emergency_stop, write_ping,
}
use ether_dream.Protocol.Command.Decode.{
  expect_start, read_begin_fields, read_point_rate_fields, read_n_points, read_points,
  read_data_fields, read_prepare_stream, read_begin, read_point_rate, read_data, read_stop,
  read_emergency_stop, read_clear_emergency_stop, read_ping,
}

module _ ⦃r : ReadBytesExt Bytes⦄ (le : ReadsLittleEndian slice_read r) where
  Reads-expect :
      {A : Type 0} (test : ℕ → Bool) (k : Io Bytes A) {n : ℕ} {cs : Bytes} {a : A}
      → IsByte n
      → test n ≡ true
      → Reads k cs a
      → Reads (expect_start test k) (le_bytes 1 n ++ cs) a
  unfolding expect_start
  Reads-expect test k hn ht hk = Reads-u8_then le _ hn (rw ht hk)

  pub Reads-begin_fields :
      (c : Begin)
      → IsBegin c
      → Reads read_begin_fields (le_bytes 2 c.low_water_mark ++ (le_bytes 4 c.point_rate ++ [])) c
  unfolding read_begin_fields
  Reads-begin_fields c h = search reads_rules

  pub Reads-point_rate_fields :
      (c : PointRate) → IsPointRate c → Reads read_point_rate_fields (le_bytes 4 c.rate ++ []) c
  unfolding read_point_rate_fields
  Reads-point_rate_fields c h = search reads_rules

  Reads-points :
      (ps acc : List DacPoint)
      → All IsPoint ps
      → Reads (read_points (length ps) acc) (points_bytes ps) (acc ++ ps)
  unfolding read_points points_bytes
  Reads-points [] acc h = rw append-nil (Reads-pure acc)
  Reads-points (p ∷ ps) acc (hp, hps) =
      Reads-bind _ _ (Reads-point le p hp)
        (rw append_assoc at (Reads-points ps (acc ++ p ∷ []) hps))

  pub Reads-data_fields :
      (c : Data)
      → IsData c
      → Reads read_data_fields (le_bytes 2 (length c.points) ++ points_bytes c.points) c
  unfolding read_data_fields read_n_points
  Reads-data_fields c h =
      Reads-u16_then le _ (omega arith)
        (Reads-map _ (λ ps. record { points = ps }) (Reads-points c.points [] h.points))

  pub Reads-begin : (c : Begin) → IsBegin c → Reads read_begin (begin_bytes c) c
  unfolding read_begin begin_bytes
  Reads-begin c h = Reads-expect _ _ (omega arith) refl (Reads-begin_fields c h)

  pub Reads-point_rate :
      (c : PointRate) → IsPointRate c → Reads read_point_rate (point_rate_bytes c) c
  unfolding read_point_rate point_rate_bytes
  Reads-point_rate c h = Reads-expect _ _ (omega arith) refl (Reads-point_rate_fields c h)

  pub Reads-data : (c : Data) → IsData c → Reads read_data (data_bytes c) c
  unfolding read_data data_bytes
  Reads-data c h = Reads-expect _ _ (omega arith) refl (Reads-data_fields c h)

  pub Reads-prepare_stream :
      Reads read_prepare_stream (lone_byte prepare_stream_start_byte) prepare_stream
  unfolding read_prepare_stream
  Reads-prepare_stream = Reads-expect _ _ (omega arith) refl (Reads-pure _)

  pub Reads-stop : Reads read_stop (lone_byte stop_start_byte) stop
  unfolding read_stop
  Reads-stop = Reads-expect _ _ (omega arith) refl (Reads-pure _)

  pub Reads-emergency_stop :
      Reads read_emergency_stop (lone_byte emergency_stop_start_byte) emergency_stop
  unfolding read_emergency_stop
  Reads-emergency_stop = Reads-expect _ _ (omega arith) refl (Reads-pure _)

  pub Reads-emergency_stop_alt :
      Reads read_emergency_stop (lone_byte emergency_stop_alt_start_byte) emergency_stop
  unfolding read_emergency_stop
  Reads-emergency_stop_alt = Reads-expect _ _ (omega arith) refl (Reads-pure _)

  pub Reads-clear_emergency_stop :
      Reads read_clear_emergency_stop
        (lone_byte clear_emergency_stop_start_byte)
        clear_emergency_stop
  unfolding read_clear_emergency_stop
  Reads-clear_emergency_stop = Reads-expect _ _ (omega arith) refl (Reads-pure _)

  pub Reads-ping : Reads read_ping (lone_byte ping_start_byte) ping
  unfolding read_ping
  Reads-ping = Reads-expect _ _ (omega arith) refl (Reads-pure _)

module _ {W : Type 0} {sink : Write W} ⦃w : WriteBytesExt W⦄ (le : WritesLittleEndian sink w) where
  pub Writes-prepare_stream :
      (c : PrepareStream)
      → Writes sink (write_prepare_stream c) (lone_byte prepare_stream_start_byte)
  unfolding write_prepare_stream
  Writes-prepare_stream c = search writes_rules

  pub Writes-begin : (c : Begin) → Writes sink (write_begin c) (begin_bytes c)
  unfolding write_begin begin_bytes
  Writes-begin c = search writes_rules

  pub Writes-point_rate : (c : PointRate) → Writes sink (write_point_rate c) (point_rate_bytes c)
  unfolding write_point_rate point_rate_bytes
  Writes-point_rate c = search writes_rules

  Writes-points : (ps : List DacPoint) → Writes sink (write_points ps) (points_bytes ps)
  unfolding write_points points_bytes
  Writes-points [] = Writes-pure sink
  Writes-points (p ∷ ps) = Writes-then sink _ _ (Writes-point le p) (Writes-points ps)

  pub Writes-data :
      (c : Data) → length c.points ≤ u16_max → Writes sink (write_data c) (data_bytes c)
  unfolding write_data data_bytes
  Writes-data c h =
      let small : ltb u16_max (length c.points) ≡ false = ground arith in
      let same : length c.points % 2 ^ 16 ≡ length c.points = omega arith in
      rw (small, same)
        (Writes-then sink _ _ (Writes-u8 le data_start_byte)
          (Writes-then sink _ _ (Writes-u16 le (length c.points)) (Writes-points c.points)))

  -- Writing a `Data` command of more than 65535 points fails with `InvalidData` on any stream.
  pub write_data_too_many :
      (c : Data) (s : W) → u16_max < length c.points → write_data c s ≡ err invalid_data
  unfolding write_data raise
  write_data_too_many c s h = ground arith

  pub Writes-stop : (c : Stop) → Writes sink (write_stop c) (lone_byte stop_start_byte)
  unfolding write_stop
  Writes-stop c = search writes_rules

  pub Writes-emergency_stop :
      (c : EmergencyStop)
      → Writes sink (write_emergency_stop c) (lone_byte emergency_stop_start_byte)
  unfolding write_emergency_stop
  Writes-emergency_stop c = search writes_rules

  pub Writes-emergency_stop_alt :
      (c : EmergencyStopAlt)
      → Writes sink (write_emergency_stop_alt c) (lone_byte emergency_stop_alt_start_byte)
  unfolding write_emergency_stop_alt
  Writes-emergency_stop_alt c = search writes_rules

  pub Writes-clear_emergency_stop :
      (c : ClearEmergencyStop)
      → Writes sink (write_clear_emergency_stop c) (lone_byte clear_emergency_stop_start_byte)
  unfolding write_clear_emergency_stop
  Writes-clear_emergency_stop c = search writes_rules

  pub Writes-ping : (c : Ping) → Writes sink (write_ping c) (lone_byte ping_start_byte)
  unfolding write_ping
  Writes-ping c = search writes_rules
