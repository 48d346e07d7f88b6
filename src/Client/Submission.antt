-- ===== src/Client/Submission.antt =====
-- `CommandQueue::submit` as a whole.
use ether_dream.Base.{
  ℕ, ◌<◌, ◌≡◌, refl, arith, ◌∙◌, List, [], ◌∷◌, ◌++◌, map, length, take, All, some, Result, ok,
}
use ether_dream.Io.{IoError}
use ether_dream.Io.Bytes.{Bytes}
use ether_dream.Io.Reader.{ReadBytesExt, ReadsLittleEndian}
use ether_dream.Io.Writer.{WriteBytesExt, WriteToBytes, WritesLittleEndian, write_bytes}
use ether_dream.Io.Slice.{slice_read, vec_write}
use ether_dream.Io.Codec.{Writes}
use ether_dream.Protocol.{DacResponse}
use ether_dream.Protocol.Layout.{IsResponse}
use ether_dream.Dac.{Addressed}
use ether_dream.Dac.Bitflags.{Bitflags}
use ether_dream.Client.{Stream, CommandQueue, CommunicationError}
use ether_dream.Client.Tcp.{read_exact, TcpStream, accepts, write}
use ether_dream.Client.Response.{recv_response, handle_response, accept_status}
use ether_dream.Client.Submit.{send_command, recv_into, recv_all, submit}
use ether_dream.Client.View.{view, start_byte, IsQueue, queued, commands_bytes}
use ether_dream.Client.Sending.{send_all_whole}
use ether_dream.Client.Receiving.{responses_bytes, settle, recv_all_settles}

-- The starting bytes that `submit` waits for.
abbrev pub expected : CommandQueue → List ℕ
expected q = map (λ c. start_byte (view q.stream.point_buffer c)) q.stream.command_buffer

-- How `submit` ends when the peer has answered with `ds`.
pub record Submitted ⦃f : Bitflags⦄ (q : CommandQueue) (ds : List DacResponse)
    (result : Result CommunicationError (Unit {0})) (after : Stream) : Type 0 where
  pub settled :
      let (r, a, unread) = settle q.stream.tcp_stream.read_error (expected q) ds q.stream.dac in
      (result ≡ r) × (after.dac ≡ a) × (after.tcp_stream.incoming ≡ responses_bytes unread)

module _ ⦃f : Bitflags⦄ ⦃rd : ReadBytesExt Bytes⦄ ⦃w : WriteBytesExt Bytes⦄
    (reads : ReadsLittleEndian slice_read rd) (writes : WritesLittleEndian vec_write w) where
  abbrev taken : CommandQueue → Stream
  taken q = record q.stream { command_buffer = [] }

  -- Receiving sends nothing.
  recv_into-sent : (b : ℕ) (s : Stream) → (recv_into b s).1.tcp_stream.sent ≡ s.tcp_stream.sent
  unfolding recv_into recv_response handle_response accept_status read_exact
  recv_into-sent b s = ground arith

  recv_all-sent : (bs : List ℕ) (s : Stream) → (recv_all bs s).1.tcp_stream.sent ≡ s.tcp_stream.sent
  unfolding recv_all
  recv_all-sent [] s = refl
  recv_all-sent (b ∷ bs) s = ground (arith, recv_into-sent b s, recv_all-sent bs (recv_into b s).1)

  recv_all_settles_at :
      {x : IoError} {a : Addressed} (bs : List ℕ) (ds : List DacResponse) (s : Stream)
      → s.tcp_stream.read_error ≡ x
      → s.dac ≡ a
      → All IsResponse ds
      → s.tcp_stream.incoming ≡ responses_bytes ds
      → let (r, a', unread) = settle x bs ds a in
        ((recv_all bs s).0 ≡ r)
        × ((recv_all bs s).1.dac ≡ a')
        × ((recv_all bs s).1.tcp_stream.incoming ≡ responses_bytes unread)
  recv_all_settles_at bs ds s hx ha valid e =
      rw (← hx, ← ha) (recv_all_settles reads bs ds s valid e)

  -- If every queued range lies in the point buffer, no call of `write` is short, and the peer has
  -- answered with a list of responses whose fields are in range: `submit` does not panic, sends
  -- the bytes of the queued commands in order, and its result, the client's view of the DAC and
  -- the bytes that stay unread are those of `settle`, which takes the responses one after the
  -- other against the starting bytes expected and stops at the first error.
  pub submit_lem :
      (q : CommandQueue) (ds : List DacResponse)
      → IsQueue q
      → q.stream.tcp_stream.outcomes ≡ []
      → All IsResponse ds
      → q.stream.tcp_stream.incoming ≡ responses_bytes ds
      → (result : Result CommunicationError (Unit {0})) × (after : Stream) × (submit q
          ≡ some (result, after))
        × (after.tcp_stream.sent ≡ q.stream.tcp_stream.sent ++ commands_bytes (queued q))
        × Submitted q ds result after
  unfolding submit
  submit_lem q ds can free valid e =
      let (between, sending, sent) =
        send_all_whole writes q.stream.command_buffer [] (taken q) can free in
      (
        (recv_all (expected q) between).0,
        (recv_all (expected q) between).1,
        rw (sending, submit),
        recv_all-sent (expected q) between ∙ sent.sent,
        record {
          settled =
              recv_all_settles_at (expected q) ds between sent.read_error sent.dac valid
                (sent.incoming ∙ e);
        },
      )

-- If `write` takes only a part of a command's bytes, `send_command` reports success all the same,
-- and only that part is sent.
pub send_command_partial :
    {C : Type 0} ⦃c : WriteToBytes Bytes C⦄ (command : C) (t : TcpStream) (bs : Bytes) (n : ℕ)
    → Writes vec_write (write_bytes command) bs
    → t.outcomes ≡ accepts n ∷ []
    → n < length bs
    → ((send_command command t).0 ≡ ok tt)
      × ((send_command command t).1.tcp_stream.sent ≡ t.sent ++ take n bs)
unfolding send_command write
send_command_partial command t bs n h e less = rw (h.at [], send_command) (ground arith)
