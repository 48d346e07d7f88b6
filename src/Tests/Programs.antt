-- ===== src/Tests/Programs.antt =====
-- The example programs at single values.
use ether_dream.Base.{
  ℕ, ◌+◌, ◌*◌, ◌-◌, ◌%◌, ◌≡◌, refl, arith, List, [], ◌∷◌, ◌++◌, All, replicate, none, some, ok, err,
  inl, inr, Option, Result, true, false,
}
use ether_dream.Base.Int.{pos, negsuc}
use ether_dream.Io.{IoError}
use ether_dream.Io.Bytes.{Bytes}
use ether_dream.Io.Standard.{slice_reader_laws, writer_to_laws}
use ether_dream.Protocol.{DacPoint}
use ether_dream.Protocol.Layout.{IsStatus, broadcast_bytes}
use ether_dream.Dac.{Addressed, MacAddress}
use ether_dream.Dac.Convert.{status_to_protocol, from_broadcast, update_status}
use ether_dream.Client.{Stream}
use ether_dream.Client.Discovery.{RecvDacBroadcasts, next_broadcast-whole}
use ether_dream.Emulator.{Shared, underflowed}
use ether_dream.Emulator.Exchange.{serve}
use ether_dream.Examples.Wave.{
  F32, CastsInRange, SineWave, IsWave, take_points, next, wave_point, ahead,
}
use ether_dream.Examples.Streaming.{submit_points, points_to_generate}
use ether_dream.Examples.Streaming.Show.{
  Show, Step, tops_up, stay, goes, IsOnAir, IsAccepted, answer,
}
use ether_dream.Examples.Streaming.Filling.{Steps-IsAccepted}
use ether_dream.Examples.Streaming.Sent.{batch}
use ether_dream.Examples.Streaming.Wire.{both_ends, Filled, submit_points-serve}
use ether_dream.Client.View.{commands_bytes}
use ether_dream.Client.Receiving.{responses_bytes}
use ether_dream.Emulator.Interpret.{Tcp}
use ether_dream.Io.Slice.{vec_write, slice_write}
use ether_dream.Examples.Visualiser.{
  connected, points, disconnected, Visit, Model, update, new_model, handle_all, listening,
}
use ether_dream.Examples.Visualiser.Drain.{emitted_in, remembered, update_lem}
use ether_dream.Examples.Visualiser.Trace.{Follows, listening-Follows}
use ether_dream.Examples.Enumerate.{finished, search, found_none, Found}
use ether_dream.Examples.Enumerate.Map.{IsMap, IsFine, heard, last_heard, lookup_of, search_lem}
use ether_dream.Tests.{
  reader, slice_writer, vec_writer, flags, flags_laws, connection, prepared_status,
  prepared_status-HasKnownFlags, dac_at, point, broadcast, broadcast-IsBroadcast,
}

-- Whole numbers in place of `f32`.
abbrev pub whole : F32
whole = record {
  F = ℕ;
  of_u32 = λ n. n;
  of_i16 = λ x. elim x [ pos n ↦ n | negsuc n ↦ 0 ];
  plus = λ a b. a + b;
  minus = λ a b. a - b;
  times = λ a b. a * b;
  over = λ a b. a;
  sin = λ a. a;
  one = 1;
  two = 2;
  pi = 3;
  to_i16 = λ a. pos (a % 32768);
  to_u16 = λ a. a % 65536;
}

pub whole-CastsInRange : CastsInRange whole
whole-CastsInRange a = omega arith

abbrev pub wave : SineWave whole
wave = record { point = 4; points_per_frame = 20; frames_per_second = 60 }

pub wave-IsWave : IsWave whole wave
wave-IsWave = record {
  point = omega arith;
  has_frames = omega arith;
  points_per_frame = omega arith;
}

-- A DAC that can hold two points and holds none, as the client knows.
abbrev pub empty_dac : Shared
empty_dac = record {
  dac = dac_at (prepared_status 0);
  state = record { next_point_emission = none; buffer = [] };
}

abbrev pub on_air : Show whole
on_air = record { dac = empty_dac; view = empty_dac.dac.dac; wave = wave }

pub on_air-IsOnAir : IsOnAir whole on_air
on_air-IsOnAir = record {
  sound = record {
    capacity = omega arith;
    bounded = omega arith;
    counted = refl;
    engine = λ h. refl;
  };
  active = tt;
  flags = prepared_status-HasKnownFlags 0;
  capacity = refl;
  ahead = omega arith;
  below = omega arith;
  wave = wave-IsWave;
}

-- After the first batch.
abbrev pub first_batch : List DacPoint
first_batch = wave_point whole wave ∷ []

abbrev filled : Show whole
filled = record {
  dac = (answer first_batch empty_dac).1;
  view = (update_status on_air.view (answer first_batch empty_dac).0.dac_status).1;
  wave = ahead whole 1 wave;
}

pub first_batch-taken :
    take_points whole (points_to_generate on_air.view) wave ≡ some (first_batch, ahead whole 1 wave)
unfolding take_points next points_to_generate
first_batch-taken = refl

abbrev every_ten : ℕ → Option ℕ
every_ten rate = some 10

Steps-IsAccepted_example : (pts : List DacPoint) × IsAccepted whole filled pts
Steps-IsAccepted_example =
    Steps-IsAccepted whole flags_laws whole-CastsInRange {rate_interval = every_ten} on_air filled
      on_air-IsOnAir
      (goes on_air filled filled
        (tops_up empty_dac on_air.view wave (ahead whole 1 wave) first_batch first_batch-taken)
        (stay filled))

-- The client and the emulator, each with what the other sends.
abbrev host : Stream
host = record {
  dac = empty_dac.dac;
  tcp_stream = connection (responses_bytes ((answer first_batch empty_dac).0 ∷ []));
  command_buffer = [];
  point_buffer = [];
  bytes = [];
}

abbrev device : Tcp
device = record {
  stream = connection (commands_bytes (batch first_batch));
  peeks = [];
  bytes = replicate 39 0;
}

pub empty_dac-IsStatus : IsStatus (status_to_protocol (prepared_status 0))
unfolding status_to_protocol
empty_dac-IsStatus = ground arith

submit_points-serve_example :
    (after : Stream) × (served : Tcp) × (submit_points whole host wave
      ≡ some (ok tt, after, ahead whole 1 wave))
    × (serve 1 empty_dac device ≡ some (ok tt, (answer first_batch empty_dac).1, served))
    × Filled whole host empty_dac first_batch after
    × Step whole every_ten on_air
        (both_ends whole after (answer first_batch empty_dac).1 (ahead whole 1 wave))
submit_points-serve_example =
    submit_points-serve whole flags_laws whole-CastsInRange slice_reader_laws
      (writer_to_laws vec_write) (writer_to_laws slice_write) {rate_interval = every_ten} host
      empty_dac device wave (ahead whole 1 wave) first_batch on_air-IsOnAir empty_dac-IsStatus
      first_batch-taken refl (omega arith) refl refl refl refl refl

-- A window that holds a point, and to which another one comes.
abbrev window : Model ℕ
window = record {
  active_stream = some 5;
  perceived_points = record { when = 1_000; point = point } ∷ [];
  event_rx = points 300_000_000 (point ∷ []) ∷ disconnected ∷ [];
  underflowing = true;
}

update_example :
    ((update 300_000_001 window).perceived_points
      ≡ remembered 300_000_001 (window.perceived_points ++ emitted_in window.event_rx))
    × ((update 300_000_001 window).event_rx ≡ [])
unfolding emitted_in
update_example = update_lem 300_000_001 0 window (omega arith, (omega arith, tt))

abbrev visit : Visit ℕ
visit = record {
  addr = 5;
  emitted =
      record { output = err underflowed; now = 3; room = false }
      ∷ record { output = ok (point ∷ []); now = 4; room = true }
      ∷ [];
}

listening-Follows_example :
    Follows {Addr = ℕ}
      (handle_all (connected 5 ∷ []) (new_model [])).active_stream
      (points 4 (point ∷ []) ∷ disconnected ∷ [])
unfolding listening
listening-Follows_example =
    listening-Follows 2 (ok visit ∷ []) (connected 5 ∷ [])
      (points 4 (point ∷ []) ∷ disconnected ∷ []) refl

-- A socket on which the same broadcast comes again and again.
abbrev again : Unit {0} → Result IoError (Bytes × ℕ) × Unit {0}
again u = (ok (broadcast_bytes broadcast, 5), u)

abbrev ears : RecvDacBroadcasts (Unit {0})
ears = record { udp_socket = tt; buffer = replicate 36 0 }

abbrev clock : List ℕ
clock = 0 ∷ 3_000_000_000 ∷ []

broadcast-accepted : (a : Addressed) × (from_broadcast broadcast ≡ ok a)
unfolding from_broadcast
broadcast-accepted = (_, refl)

ears-IsFine : All IsFine (heard again clock ears)
unfolding heard
ears-IsFine = (
  rw
      (next_broadcast-whole again slice_reader_laws ears broadcast 5 tt refl broadcast-IsBroadcast
        refl)
      broadcast-accepted,
  tt,
)

search_example :
    (last : Found ℕ) × (search again clock ears found_none ≡ finished last)
    × IsMap last
    × ((k : MacAddress) → lookup_of k last ≡ last_heard k none (heard again clock ears))
search_example = search_lem again clock ears (inr (inl (omega arith))) ears-IsFine
