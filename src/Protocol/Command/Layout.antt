-- ===== src/Protocol/Command/Layout.antt =====
-- The wire format of the commands, and the ranges of their fields.
use ether_dream.Base.{ℕ, ◌≤◌, List, [], ◌∷◌, ◌++◌, length, All}
use ether_dream.Io.Bytes.{Bytes, IsU16, IsU32, le_bytes}
use ether_dream.Protocol.{DacPoint}
use ether_dream.Protocol.Layout.{point_bytes, IsPoint}
use ether_dream.Protocol.Command.{
  Begin, PointRate, Data, begin_start_byte, point_rate_start_byte, data_start_byte, u16_max,
}

-- The commands that are a starting byte alone.
abbrev pub lone_byte : ℕ → Bytes
lone_byte start = le_bytes 1 start ++ []

unfoldable pub begin_bytes : Begin → Bytes
begin_bytes c =
    le_bytes 1 begin_start_byte ++ (le_bytes 2 c.low_water_mark ++ (le_bytes 4 c.point_rate ++ []))

unfoldable pub point_rate_bytes : PointRate → Bytes
point_rate_bytes c = le_bytes 1 point_rate_start_byte ++ (le_bytes 4 c.rate ++ [])

unfoldable pub points_bytes : List DacPoint → Bytes
points_bytes [] = []
points_bytes (p ∷ ps) = point_bytes p ++ points_bytes ps

unfoldable pub data_bytes : Data → Bytes
data_bytes c = le_bytes 1 data_start_byte ++ (le_bytes 2 (length c.points) ++ points_bytes c.points)

pub record IsBegin (c : Begin) : Type 0 where
  pub low_water_mark : IsU16 c.low_water_mark
  pub point_rate : IsU32 c.point_rate

pub record IsPointRate (c : PointRate) : Type 0 where
  pub rate : IsU32 c.rate

-- A `Data` command that fits the wire: the number of points is a `u16`.
pub record IsData (c : Data) : Type 0 where
  pub points : All IsPoint c.points
  pub count : length c.points ≤ u16_max
