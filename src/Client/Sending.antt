-- ===== src/Client/Sending.antt =====
-- What `submit` puts on the wire.
use ether_dream.Base.{
  ℕ, ◌-◌, ◌≤◌, ◌≡◌, refl, arith, ap, ◌∙◌, List, [], ◌∷◌, ◌++◌, append-nil, append_assoc, map,
  length, length-take, drop, All, le→leb, some, Result, ok,
}
use ether_dream.Io.{IoError}
use ether_dream.Io.Bytes.{Bytes}
use ether_dream.Io.Writer.{WriteBytesExt, WriteToBytes, WritesLittleEndian, write_bytes}
use ether_dream.Io.Slice.{vec_write}
use ether_dream.Io.Codec.{Writes}
use ether_dream.Protocol.{DacPoint}
use ether_dream.Protocol.Command.Encode.{
  prepare_stream_to_bytes, begin_to_bytes, point_rate_to_bytes, data_to_bytes, stop_to_bytes,
  emergency_stop_to_bytes, clear_emergency_stop_to_bytes, ping_to_bytes,
}
use ether_dream.Protocol.Command.RoundTrip.{
  Writes-prepare_stream, Writes-begin, Writes-point_rate, Writes-data, Writes-stop,
  Writes-emergency_stop, Writes-clear_emergency_stop, Writes-ping,
}
use ether_dream.Dac.Command.RoundTrip.{command_bytes}
use ether_dream.Client.{
  Stream, QueuedCommand, prepare_stream, begin, point_rate, data_range, stop, emergency_stop,
  clear_emergency_stop, ping, Range,
}
use ether_dream.Client.Tcp.{TcpStream, write}
use ether_dream.Client.Submit.{send_command, points_in, send_with, send_queued, send_all}
use ether_dream.Client.View.{cut, view, start_byte, IsRange, IsQueued, commands_bytes}

-- `after` is `before` with `bs` sent, and the buffer for bytes used on the way.
pub record Sent (before : Stream) (bs : Bytes) (after : Stream) : Type 0 where
  pub sent : after.tcp_stream.sent ≡ before.tcp_stream.sent ++ bs
  pub incoming : after.tcp_stream.incoming ≡ before.tcp_stream.incoming
  pub read_error : after.tcp_stream.read_error ≡ before.tcp_stream.read_error
  pub outcomes : after.tcp_stream.outcomes ≡ before.tcp_stream.outcomes
  pub dac : after.dac ≡ before.dac
  pub command_buffer : after.command_buffer ≡ before.command_buffer
  pub point_buffer : after.point_buffer ≡ before.point_buffer

Sent-nothing : (s : Stream) → Sent s [] s
Sent-nothing s = record {
  sent = rw append-nil;
  incoming = refl;
  read_error = refl;
  outcomes = refl;
  dac = refl;
  command_buffer = refl;
  point_buffer = refl;
}

Sent-then : {s t u : Stream} (bs cs : Bytes) → Sent s bs t → Sent t cs u → Sent s (bs ++ cs) u
Sent-then {s} {t} {u} bs cs h k = record {
  sent = k.sent ∙ ap (λ r. r ++ cs) h.sent ∙ append_assoc s.tcp_stream.sent bs cs;
  incoming = k.incoming ∙ h.incoming;
  read_error = k.read_error ∙ h.read_error;
  outcomes = k.outcomes ∙ h.outcomes;
  dac = k.dac ∙ h.dac;
  command_buffer = k.command_buffer ∙ h.command_buffer;
  point_buffer = k.point_buffer ∙ h.point_buffer;
}

-- A send that the operating system takes whole.
abbrev SendsWhole : Result IoError ℕ × Stream → ℕ → Stream → Bytes → Type 0
SendsWhole r start s bs = (s' : Stream) × (r ≡ (ok start, s')) × Sent s bs s'

-- A call of `write` that takes all its bytes.
pub write_whole :
    (xs : Bytes) (t : TcpStream)
    → t.outcomes ≡ []
    → write xs t ≡ (ok (length xs), record t { sent = t.sent ++ xs })
unfolding write
write_whole xs t free = ground arith

abbrev after_send : Stream → Bytes → Stream
after_send s bs = record s {
  bytes = bs;
  tcp_stream = record s.tcp_stream { sent = s.tcp_stream.sent ++ bs };
}

after_send-Sent : (s : Stream) (bs : Bytes) → Sent s bs (after_send s bs)
after_send-Sent s bs = record {
  sent = refl;
  incoming = refl;
  read_error = refl;
  outcomes = refl;
  dac = refl;
  command_buffer = refl;
  point_buffer = refl;
}

send_with_whole :
    {C : Type 0} ⦃c : WriteToBytes Bytes C⦄ (command : C) (start : ℕ) (s : Stream) (bs : Bytes)
    → Writes vec_write (write_bytes command) bs
    → s.tcp_stream.outcomes ≡ []
    → send_with command start s ≡ (ok start, after_send s bs)
unfolding send_with send_command
send_with_whole command start s bs h free =
    rw (h.at [], send_with, send_command) (rw (write_whole bs s.tcp_stream free))

points_in-cut :
    (range : Range) (points : List DacPoint)
    → IsRange points range
    → points_in range points ≡ some (cut range points)
unfolding points_in
points_in-cut range points h = rw (le→leb _ _ h.ordered, le→leb _ _ h.inside)

length-cut-le :
    (range : Range) (points : List DacPoint) → length (cut range points) ≤ range.past - range.first
length-cut-le range points =
    omega (arith, length-take (range.past - range.first) (drop range.first points))

module _ ⦃w : WriteBytesExt Bytes⦄ (le : WritesLittleEndian vec_write w) where
  -- One command goes out as the bytes of what it stands for.
  send_queued_whole :
      (c : QueuedCommand) (s : Stream)
      → IsQueued s.point_buffer c
      → s.tcp_stream.outcomes ≡ []
      → let command = view s.point_buffer c in
        send_queued c s ≡ some (ok (start_byte command), after_send s (command_bytes command))
  unfolding send_queued command_bytes
  send_queued_whole prepare_stream s h free =
      ap some (send_with_whole _ _ s _ (Writes-prepare_stream le _) free)
  send_queued_whole (begin c) s h free = ap some (send_with_whole _ _ s _ (Writes-begin le c) free)
  send_queued_whole (point_rate c) s h free =
      ap some (send_with_whole _ _ s _ (Writes-point_rate le c) free)
  send_queued_whole (data_range range) s h free =
      rw (points_in-cut range s.point_buffer h, send_queued)
        (ap some (
          send_with_whole _ _ s _
            (Writes-data le _ (omega (arith, h.short, length-cut-le range s.point_buffer))) free))
  send_queued_whole stop s h free = ap some (send_with_whole _ _ s _ (Writes-stop le _) free)
  send_queued_whole emergency_stop s h free =
      ap some (send_with_whole _ _ s _ (Writes-emergency_stop le _) free)
  send_queued_whole clear_emergency_stop s h free =
      ap some (send_with_whole _ _ s _ (Writes-clear_emergency_stop le _) free)
  send_queued_whole ping s h free = ap some (send_with_whole _ _ s _ (Writes-ping le _) free)

  -- If every queued range lies in the point buffer and no call of `write` is short, sending the
  -- queued commands succeeds, remembers their starting bytes in order, and appends their
  -- encodings to what was sent; nothing else of the stream changes but the buffer.
  pub send_all_whole :
      (cs : List QueuedCommand) (acc : List ℕ) (s : Stream)
      → All (IsQueued s.point_buffer) cs
      → s.tcp_stream.outcomes ≡ []
      → (s' : Stream) × (send_all cs acc s
          ≡ some (ok (acc ++ map (λ c. start_byte (view s.point_buffer c)) cs), s'))
        × Sent s (commands_bytes (map (view s.point_buffer) cs)) s'
  unfolding send_all commands_bytes
  send_all_whole [] acc s h free = (s, rw append-nil, Sent-nothing s)
  send_all_whole (c ∷ cs) acc s (hc, hcs) free =
      let command = view s.point_buffer c in
      let next = after_send s (command_bytes command) in
      let (s', e, sent) = send_all_whole cs (acc ++ start_byte command ∷ []) next hcs free in
      (
        s',
        rw (send_queued_whole c s hc free, send_all)
            (rw (
              e,
              append_assoc acc (start_byte command ∷ [])
                  (map (λ c. start_byte (view s.point_buffer c)) cs),
            )),
        Sent-then (command_bytes command) _ (after_send-Sent s (command_bytes command)) sent,
      )
