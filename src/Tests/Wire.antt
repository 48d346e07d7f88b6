-- ===== src/Tests/Wire.antt =====
-- The protocol's round trips and refusals at single values.
use ether_dream.Base.{arith, [], ◌∷◌, length, ◌≡◌, All, refl}
use ether_dream.Io.Standard.{slice_reader_laws, writer_to_laws}
use ether_dream.Io.Slice.{vec_write, slice_read_exact}
use ether_dream.Protocol.Encode.{
  write_dac_status, write_dac_broadcast, write_dac_response, write_dac_point,
}
use ether_dream.Protocol.Decode.{
  read_dac_status, read_dac_broadcast, read_dac_response, read_dac_point,
}
use ether_dream.Protocol.ReadBack.{ReadsBack, ReadsBack-command}
use ether_dream.Protocol.Command.{Data}
use ether_dream.Protocol.Command.Layout.{IsData}
use ether_dream.Dac.Command.{Command, read_command, write_command, begin, read_command_kind}
use ether_dream.Dac.Command.RoundTrip.{command_bytes}
use ether_dream.Io.{ok, ◌>>=◌}
use ether_dream.Io.Bytes.{Bytes, IsByte, le_value}
use ether_dream.Dac.Command.Spelling.{WritesBack, WritesBack-command}
use ether_dream.Protocol.Isomorphism.{Codec, Codec-structures}
use ether_dream.Protocol.Layout.{IsStatus, IsPoint, IsBroadcast, IsResponse}
use ether_dream.Tests.{reader, vec_writer, point, point-IsPoint}

Codec-structures_example :
    Codec read_dac_status write_dac_status IsStatus 20
    × Codec read_dac_point write_dac_point IsPoint 18
    × Codec read_dac_broadcast write_dac_broadcast IsBroadcast 36
    × Codec read_dac_response write_dac_response IsResponse 22
Codec-structures_example = Codec-structures slice_reader_laws (writer_to_laws vec_write)

abbrev two_points : Data
two_points = record { points = point ∷ point ∷ [] }

two_points-IsData : IsData two_points
two_points-IsData = record { points = (point-IsPoint, (point-IsPoint, tt)); count = omega arith }

abbrev begin_command : Command
begin_command = begin (record { low_water_mark = 3; point_rate = 30000 })

ReadsBack-command_example :
    ReadsBack
      (write_command begin_command)
      read_command
      (length (command_bytes begin_command))
      begin_command
ReadsBack-command_example =
    ReadsBack-command slice_reader_laws (writer_to_laws vec_write) begin_command
      (record { low_water_mark = omega arith; point_rate = omega arith })

-- A `Begin` with another byte behind it.
abbrev incoming : Bytes
incoming = 0x62 ∷ 3 ∷ 0 ∷ 0x30 ∷ 0x75 ∷ 0 ∷ 0 ∷ 0x3f ∷ []

incoming-IsByte : All IsByte incoming
incoming-IsByte = ground arith

incoming-read : read_command incoming ≡ ok (begin_command, 0x3f ∷ [])
unfolding read_command read_command_kind ◌>>=◌ slice_read_exact le_value
incoming-read = refl

WritesBack-command_example : WritesBack incoming (0x3f ∷ []) begin_command
WritesBack-command_example =
    WritesBack-command slice_reader_laws (writer_to_laws vec_write) incoming (0x3f ∷ [])
      begin_command incoming-IsByte incoming-read
