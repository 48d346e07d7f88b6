-- ===== src/Emulator/Machine.antt =====
-- The state machines of the emulated DAC: which moves an accepted command makes.
use ether_dream.Base.{
  ◌+◌, ◌≡◌, ◌≢◌, ◌⊎◌, inl, inr, refl, arith, sym, subst, Bool-cases, List, [], ◌∷◌, length, leb,
}
use ether_dream.Protocol.{DacPoint, ack, nak_invalid}
use ether_dream.Protocol.Command.{
  PrepareStream, Data, Begin, PointRate, Stop, EmergencyStop, ClearEmergencyStop, Ping,
}
use ether_dream.Dac.{LightEngine, ready, Playback, idle, prepared, playing}
use ether_dream.Emulator.{
  Shared, Command, prepare_stream, begin, point_rate, data_points, stop, emergency_stop,
  clear_emergency_stop, ping,
}
use ether_dream.Emulator.Process.{
  Reply, status_of, capacity_of, reply, reply_prepare, reply_begin, reply_begin_buffered,
  reply_point_rate, reply_data, reply_stop, reply_clear_emergency_stop, extend_buffer,
}

-- The light engine and the playback.
abbrev pub Machines : Type 0
Machines = LightEngine × Playback

abbrev pub machines : Shared → Machines
machines s = ((status_of s).light_engine, (status_of s).playback)

-- The moves that an accepted command makes.
pub data Moves : Command → Machines → Machines → Type 0 where
  prepares : (c : PrepareStream) → Moves (prepare_stream c) (ready, idle) (ready, prepared)
  begins : (c : Begin) → Moves (begin c) (ready, prepared) (ready, playing)
  sets_rate_prepared : (c : PointRate) → Moves (point_rate c) (ready, prepared) (ready, prepared)
  sets_rate_playing : (c : PointRate) → Moves (point_rate c) (ready, playing) (ready, playing)
  buffers_prepared : (c : Data) → Moves (data_points c) (ready, prepared) (ready, prepared)
  buffers_playing : (c : Data) → Moves (data_points c) (ready, playing) (ready, playing)
  stops_prepared : (c : Stop) → Moves (stop c) (ready, prepared) (ready, idle)
  stops_playing : (c : Stop) → Moves (stop c) (ready, playing) (ready, idle)
  emergency_stops :
      (c : EmergencyStop) (m : Machines)
      → Moves (emergency_stop c) m (LightEngine.emergency_stop, idle)
  clears_ready :
      (c : ClearEmergencyStop) (p : Playback) → Moves (clear_emergency_stop c) (ready, p) (ready, p)
  pings : (c : Ping) (m : Machines) → Moves (ping c) m m

-- An answer to `c` from `s`: accepted with a move, or refused with both machines as they were.
abbrev pub Answers : Command → Shared → Machines → Reply → Type 0
Answers c s m r =
    ((r.0 ≡ ack) × Moves c m (machines r.1)) ⊎ ((r.0 ≢ ack) × (machines r.1 ≡ machines s))

-- A refusal that leaves the state alone.
refused : {c : Command} {m : Machines} (s : Shared) → Answers c s m (nak_invalid, s)
refused s = inr (omega arith, refl)

-- A move that ends where it began, also when it is read off the state.
stay : {c : Command} {m m' : Machines} → m' ≡ m → Moves c m m → Moves c m m'
stay {c} {m} h move = subst (λ k. Moves c m k) (sym h) move

extend_buffer-Answers :
    (c : Data) {m : Machines} (s : Shared)
    → Moves (data_points c) m (machines s)
    → Answers (data_points c) s m (extend_buffer c.points s)
unfolding extend_buffer
extend_buffer-Answers c s move =
    elim (Bool-cases (leb (length s.state.buffer + length c.points) (capacity_of s))) [
      | inl fits ↦ inl (rw fits, move)
      | inr over ↦ inr (rw over (omega arith), refl)
    ]

reply_prepare-Answers :
    (c : PrepareStream) (e : LightEngine) (p : Playback) (s : Shared)
    → (status_of s).light_engine ≡ e
    → Answers (prepare_stream c) s (e, p) (reply_prepare e p s)
unfolding reply_prepare
reply_prepare-Answers c ready idle s h = inl (refl, rw h (prepares c))
reply_prepare-Answers c e p s h = refused s

reply_begin-Answers :
    (c : Begin) (e : LightEngine) (p : Playback) (s : Shared)
    → (status_of s).light_engine ≡ e
    → Answers (begin c) s (e, p) (reply_begin e p c.point_rate s)
unfolding reply_begin
reply_begin-Answers c ready prepared s h = buffered s.state.buffer
  where
    buffered :
        (points : List DacPoint)
        → Answers (begin c) s (ready, prepared) (reply_begin_buffered points c.point_rate s)
    buffered [] = refused s
    buffered (_ ∷ _) = inl (refl, rw h (begins c))
reply_begin-Answers c e p s h = refused s

reply_point_rate-Answers :
    (c : PointRate) (e : LightEngine) (p : Playback) (s : Shared)
    → machines s ≡ (e, p)
    → Answers (point_rate c) s (e, p) (reply_point_rate e p c.rate s)
unfolding reply_point_rate
reply_point_rate-Answers c ready prepared s h = inl (refl, stay h (sets_rate_prepared c))
reply_point_rate-Answers c ready playing s h = inl (refl, stay h (sets_rate_playing c))
reply_point_rate-Answers c e p s h = refused s

reply_data-Answers :
    (c : Data) (e : LightEngine) (p : Playback) (s : Shared)
    → machines s ≡ (e, p)
    → Answers (data_points c) s (e, p) (reply_data e p c.points s)
unfolding reply_data
reply_data-Answers c ready prepared s h = extend_buffer-Answers c s (stay h (buffers_prepared c))
reply_data-Answers c ready playing s h = extend_buffer-Answers c s (stay h (buffers_playing c))
reply_data-Answers c e p s h = refused s

reply_stop-Answers :
    (c : Stop) (e : LightEngine) (p : Playback) (s : Shared)
    → (status_of s).light_engine ≡ e
    → Answers (stop c) s (e, p) (reply_stop e p s)
unfolding reply_stop
reply_stop-Answers c ready prepared s h = inl (refl, rw h (stops_prepared c))
reply_stop-Answers c ready playing s h = inl (refl, rw h (stops_playing c))
reply_stop-Answers c e p s h = refused s

reply_clear_emergency_stop-Answers :
    (c : ClearEmergencyStop) (e : LightEngine) (s : Shared)
    → Answers
        (clear_emergency_stop c)
        s
        (e, (status_of s).playback)
        (reply_clear_emergency_stop e s)
unfolding reply_clear_emergency_stop
reply_clear_emergency_stop-Answers c ready s = inl (refl, clears_ready c _)
reply_clear_emergency_stop-Answers c e s = refused s

-- Every command is answered in one of two ways. It is accepted with `ACK`, and light engine and
-- playback make a move of the table `Moves`; or the response is not `ACK`, and both stay as they
-- were.
pub reply-Answers : (c : Command) (s : Shared) → Answers c s (machines s) (reply c s)
unfolding reply
reply-Answers (prepare_stream c) s = reply_prepare-Answers c _ _ s refl
reply-Answers (begin c) s = reply_begin-Answers c _ _ s refl
reply-Answers (point_rate c) s = reply_point_rate-Answers c _ _ s refl
reply-Answers (data_points c) s = reply_data-Answers c _ _ s refl
reply-Answers (stop c) s = reply_stop-Answers c _ _ s refl
reply-Answers (emergency_stop c) s = inl (refl, emergency_stops c _)
reply-Answers (clear_emergency_stop c) s = reply_clear_emergency_stop-Answers c _ s
reply-Answers (ping c) s = inl (refl, pings c _)
