-- ===== src/Client/Receiving.antt =====
-- How `submit` takes the responses: against a list of responses that the peer sent.
use ether_dream.Base.{
  ℕ, ◌-◌, ◌≡◌, refl, arith, ap, sym, ◌∙◌, List, [], ◌∷◌, ◌++◌, append-nil, length, length-append,
  length-take, length-replicate, take, drop, replicate, take-length-append, drop-length-append, All,
  leb, le→leb, Result, ok, err, map_err, true,
}
use ether_dream.Io.{IoError}
use ether_dream.Io.Bytes.{Bytes}
use ether_dream.Io.Reader.{ReadBytesExt, ReadsLittleEndian}
use ether_dream.Io.Slice.{slice_read}
use ether_dream.Io.Codec.{Reads-length}
use ether_dream.Protocol.{DacResponse, dac_response_size_bytes}
use ether_dream.Protocol.Layout.{response_bytes, IsResponse}
use ether_dream.Protocol.Decode.{read_dac_response, dac_response_from_bytes}
use ether_dream.Protocol.RoundTrip.{Reads-response, Takes-response}
use ether_dream.Dac.{Addressed}
use ether_dream.Dac.Bitflags.{Bitflags}
use ether_dream.Dac.Convert.{update_status}
use ether_dream.Client.{Stream, CommunicationError, io, protocol, response}
use ether_dream.Client.Tcp.{TcpStream, read_exact}
use ether_dream.Client.Response.{
  resize, Receiver, check_errors, handle_response, received, recv_response,
}
use ether_dream.Client.Submit.{recv_into, recv_all}

unfoldable pub responses_bytes : List DacResponse → Bytes
responses_bytes [] = []
responses_bytes (d ∷ ds) = response_bytes d ++ responses_bytes ds

length-resize : (n : ℕ) (bs : Bytes) → length (resize n bs) ≡ n
length-resize n bs = omega (
  arith,
  length-take n (bs ++ replicate (n - length bs) 0),
  length-append bs (replicate (n - length bs) 0),
  length-replicate {A = ℕ} (n - length bs) 0,
)

-- The effect of one response on the client's view of the DAC.
unfoldable pub settle_one :
    ⦃f : Bitflags⦄ → ℕ → DacResponse → Addressed → Result CommunicationError (Unit {0}) × Addressed
settle_one expected d a = elim (check_errors d expected) [
  | err e ↦ (err (response e), a)
  | ok _ ↦
      let (result, dac) = update_status a.dac d.dac_status in
      (map_err protocol result, record a { dac = dac })
]

-- The expected starting bytes against the responses in order: the first error ends the round, and
-- the responses behind it stay unread. When no response is left the read fails.
unfoldable pub settle :
    ⦃f : Bitflags⦄
    → IoError
    → List ℕ
    → List DacResponse
    → Addressed
    → Result CommunicationError (Unit {0}) × Addressed × List DacResponse
settle e [] ds a = (ok tt, a, ds)
settle e (b ∷ bs) [] a = (err (io e), a, [])
settle e (b ∷ bs) (d ∷ ds) a =
    let (result, a') = settle_one b d a in
    elim result [ err x ↦ (err x, a', ds) | ok _ ↦ settle e bs ds a' ]

pub read_exact-append :
    (bs rest : Bytes) (t : TcpStream)
    → t.incoming ≡ bs ++ rest
    → read_exact (length bs) t ≡ (ok bs, record t { incoming = rest })
unfolding read_exact
read_exact-append bs rest t e =
    let fits : leb (length bs) (length t.incoming) ≡ true =
      le→leb _ _ (omega (arith, length-append bs rest, ap length e)) in
    let front : take (length bs) t.incoming ≡ bs =
      ap (take (length bs)) e ∙ take-length-append bs rest in
    let back : drop (length bs) t.incoming ≡ rest =
      ap (drop (length bs)) e ∙ drop-length-append bs rest in
    rw (fits, front, back)

module _ ⦃f : Bitflags⦄ ⦃rd : ReadBytesExt Bytes⦄ (le : ReadsLittleEndian slice_read rd) where
  read_whole : (d : DacResponse) → IsResponse d → read_dac_response (response_bytes d) ≡ ok (d, [])
  read_whole d h = rw append-nil at ((Reads-response le d h).at [])

  pub recv_response_lem :
      (expected : ℕ) (r : Receiver) (d : DacResponse) (rest : Bytes)
      → IsResponse d
      → r.tcp_stream.incoming ≡ response_bytes d ++ rest
      → recv_response expected r
        ≡ handle_response expected
            (record r {
              bytes = response_bytes d;
              tcp_stream = record r.tcp_stream { incoming = rest };
            })
            d
  unfolding recv_response
  recv_response_lem expected r d rest h e =
      let size : length (resize dac_response_size_bytes r.bytes) ≡ length (response_bytes d) =
        length-resize dac_response_size_bytes r.bytes
        ∙ sym (Reads-length (Reads-response le d h) (Takes-response le)) in
      rw (
        recv_response,
        size,
        read_exact-append (response_bytes d) rest r.tcp_stream e,
        read_whole d h,
        received,
      )

  -- The state after one response.
  recv_into_lem :
      (expected : ℕ) (s : Stream) (d : DacResponse) (rest : Bytes)
      → IsResponse d
      → s.tcp_stream.incoming ≡ response_bytes d ++ rest
      → let (result, a) = settle_one expected d s.dac in
        recv_into expected s ≡ (
          result,
          record s {
            bytes = response_bytes d;
            tcp_stream = record s.tcp_stream { incoming = rest };
            dac = a;
          },
        )
  unfolding recv_into handle_response settle_one
  recv_into_lem expected s d rest h e =
      let r : Receiver = record { bytes = s.bytes; tcp_stream = s.tcp_stream; dac = s.dac } in
      rw (recv_response_lem expected r d rest h e, recv_into) (ground arith)

  -- With nothing to read the error of the TCP stream comes back.
  recv_into_nothing :
      (expected : ℕ) (s : Stream)
      → s.tcp_stream.incoming ≡ []
      → ((recv_into expected s).0 ≡ err (io s.tcp_stream.read_error))
        × ((recv_into expected s).1.dac ≡ s.dac)
        × ((recv_into expected s).1.tcp_stream.incoming ≡ [])
  unfolding recv_into recv_response read_exact
  recv_into_nothing expected s e = ground (arith, length-resize dac_response_size_bytes s.bytes)

  abbrev after_one : ℕ → DacResponse → Bytes → Stream → Stream
  after_one expected d rest s = record s {
    bytes = response_bytes d;
    tcp_stream = record s.tcp_stream { incoming = rest };
    dac = (settle_one expected d s.dac).1;
  }

  -- If the bytes that come in are the encodings of responses whose fields are in range, receiving
  -- ends as `settle` does: the result, the view of the DAC, and the responses that stay unread,
  -- which are all those behind the first error.
  pub recv_all_settles :
      (bs : List ℕ) (ds : List DacResponse) (s : Stream)
      → All IsResponse ds
      → s.tcp_stream.incoming ≡ responses_bytes ds
      → let (result, a, unread) = settle s.tcp_stream.read_error bs ds s.dac in
        ((recv_all bs s).0 ≡ result)
        × ((recv_all bs s).1.dac ≡ a)
        × ((recv_all bs s).1.tcp_stream.incoming ≡ responses_bytes unread)
  unfolding recv_all settle responses_bytes
  recv_all_settles [] ds s h e = (refl, refl, e)
  recv_all_settles (b ∷ bs) [] s h e = ground (arith, recv_into_nothing b s)
  recv_all_settles (b ∷ bs) (d ∷ ds) s (hd, hds) e = ground (
    arith,
    recv_into_lem b s d (responses_bytes ds) hd e,
    recv_all_settles bs ds (after_one b d (responses_bytes ds) s) hds refl,
  )
