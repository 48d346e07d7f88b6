-- ===== src/Tests/Rounds.antt =====
-- The loop of next_points, and the broadcaster fed by its timer, at single values.
use ether_dream.Base.{
  Option, ℕ, ◌≡◌, refl, arith, List, [], ◌∷◌, ◌++◌, replicate, length, none, some, ok, Result,
}
use ether_dream.Io.{IoError}
use ether_dream.Io.Bytes.{Bytes, le_bytes}
use ether_dream.Io.Standard.{slice_reader_laws, writer_to_laws}
use ether_dream.Io.Slice.{slice_write}
use ether_dream.Protocol.Command.Layout.{begin_bytes}
use ether_dream.Dac.Command.{Command}
use ether_dream.Dac.Command.RoundTrip.{command_bytes}
use ether_dream.Client.View.{commands_bytes}
use ether_dream.Emulator.Invariant.{IsSound}
use ether_dream.Emulator.Process.{process_interpreted_command}
use ether_dream.Emulator.Interpret.{Tcp}
use ether_dream.Emulator.Run.{process_all}
use ether_dream.Emulator.Exchange.{FitsIn}
use ether_dream.Emulator.Select.{Config, Steps, first_round}
use ether_dream.Emulator.Setup.{Broadcaster, SocketAddr, unspecified_ip}
use ether_dream.Emulator.Broadcast.{run, announcement, Delivers, Announces}
use ether_dream.Emulator.Broadcast.Timer.{one_hz, one_hz_send, AreApart, run-one_hz_send}
use ether_dream.Emulator.Next.{Round, command, emission, reading, next_points}
use ether_dream.Emulator.Next.Schedule.{next_points_lem}
use ether_dream.Emulator.Next.Serving.{Serves, next_points-Serves}
use ether_dream.Tests.{closed, reader, slice_writer, shared, connection, prepared_status, dac_at}

abbrev interval : ℕ → Option ℕ
interval rate = some 10

abbrev begin_command : Command
begin_command = Command.begin (record { low_water_mark = 0; point_rate = 1000 })

abbrev begin_first : List Command
begin_first = begin_command ∷ []

abbrev tcp_of : Bytes → Tcp
tcp_of incoming = record { stream = connection incoming; peeks = []; bytes = replicate 39 0 }

abbrev begun : Tcp
begun = tcp_of (commands_bytes begin_first)

-- The command, and an emission after its moment.
abbrev rounds : List Round
rounds = command none ∷ emission 5 7 (reading 0 []) ∷ []

begin-FitsIn : FitsIn 39 begin_command
unfolding command_bytes begin_bytes le_bytes
begin-FitsIn = (record { low_water_mark = omega arith; point_rate = omega arith }, omega arith)

next_points_example :
    ((c : Config) × Steps interval (first_round shared) c
      × (c.shared ≡ (next_points interval 10 closed rounds shared begun).shared))
    × (IsSound shared → IsSound (next_points interval 10 closed rounds shared begun).shared)
next_points_example = next_points_lem interval 10 closed rounds shared begun

next_points-Serves_example :
    Serves interval 10 closed begin_first shared begun
      (next_points interval 10 closed rounds shared begun)
unfolding process_all process_interpreted_command
next_points-Serves_example =
    next_points-Serves interval 10 closed (writer_to_laws slice_write) slice_reader_laws begin_first
      shared begun 5 7 [] [] (omega arith) (begin-FitsIn, tt) refl refl refl refl (omega arith) refl
      (omega arith) (omega arith) (omega arith)

-- The emission completes when three bytes of the command were read.
abbrev interrupted : List Round
interrupted = emission 5 7 (reading 3 (0x62 ∷ 0 ∷ 0 ∷ replicate 36 0)) ∷ []

-- A socket that keeps what was sent.
abbrev keep : Bytes → SocketAddr → List Bytes → Result IoError ℕ × List Bytes
keep bs a sent = (ok (length bs), sent ++ bs ∷ [])

abbrev kept : List Bytes → List Bytes
kept sent = sent

keep-Delivers : Delivers keep kept
keep-Delivers = record { accepted = λ bs a u. refl; logged = λ bs a u. refl }

abbrev announcer : Broadcaster (List Bytes)
announcer = record {
  dac = dac_at (prepared_status 0);
  udp_socket = [];
  broadcast_addr = record { ip = unspecified_ip; port = 7654 };
  bytes = replicate 36 0;
}

run-one_hz_send_example :
    AreApart 1_000_000_000 3 (one_hz 3 (5 ∷ 0 ∷ []))
    × Announces kept announcer
        (announcement announcer.dac ∷ announcement announcer.dac ∷ [])
        (run keep (one_hz_send 3 (5 ∷ 0 ∷ [])) announcer)
run-one_hz_send_example =
    run-one_hz_send keep-Delivers (writer_to_laws slice_write) 3 (5 ∷ 0 ∷ []) announcer refl
