-- ===== src/Emulator/Broadcast/Timer.antt =====
-- `timer_stream`, `one_hz` and `one_hz_send` of dac-emulator/src/broadcaster.rs. A stream of the
-- runtime is the list of the moments at which it yields, in nanoseconds: a timer is made when the next
-- item is asked for, which is when the one who takes them is done with the last.
use ether_dream.Base.{
  ℕ, ◌+◌, ◌≤◌, ◌≡◌, refl, ap, subst, arith, List, [], ◌∷◌, map, length, replicate, Result,
}
use ether_dream.Io.{IoError}
use ether_dream.Io.Bytes.{Bytes}
use ether_dream.Io.Writer.{WriteBytesExt, WritesLittleEndian}
use ether_dream.Io.Slice.{SliceMut, slice_write}
use ether_dream.Dac.{Addressed}
use ether_dream.Emulator.Setup.{Broadcaster, SocketAddr}
use ether_dream.Emulator.Broadcast.{
  Message, send_now, run, announced, Delivers, Announces, announcement, run_lem,
}

-- `took` is how long each item keeps the one who takes it; there are as many items as are taken.
unfoldable pub timer_stream : (interval start : ℕ) → (took : List ℕ) → List ℕ
timer_stream interval start [] = []
timer_stream interval start (d ∷ took) =
    (start + interval) ∷ timer_stream interval (start + interval + d) took

unfoldable pub one_hz : (start : ℕ) → (took : List ℕ) → List ℕ
unfolding timer_stream
one_hz = timer_stream 1_000_000_000

unfoldable pub one_hz_send : (start : ℕ) → (took : List ℕ) → List Message
unfolding one_hz
one_hz_send start took = map (λ _. send_now) (one_hz start took)

-- Moments that lie an interval apart or more, from `start` on.
abbrev pub AreApart : (interval start : ℕ) → List ℕ → Type 0
AreApart interval start [] = Unit {0}
AreApart interval start (t ∷ ts) = (start + interval ≤ t) × AreApart interval t ts

AreApart-later :
    (interval start later : ℕ) (ts : List ℕ)
    → start ≤ later
    → AreApart interval later ts
    → AreApart interval start ts
AreApart-later interval start later [] h apart = tt
AreApart-later interval start later (t ∷ ts) h (le, apart) = (omega (arith, h, le), apart)

timer_stream-AreApart :
    (interval start : ℕ) (took : List ℕ)
    → AreApart interval start (timer_stream interval start took)
unfolding timer_stream
timer_stream-AreApart interval start [] = tt
timer_stream-AreApart interval start (d ∷ took) = (
  omega arith,
  AreApart-later interval (start + interval) (start + interval + d) _ (omega arith)
      (timer_stream-AreApart interval (start + interval + d) took),
)

announced-sends :
    (dac : Addressed) (interval start : ℕ) (took : List ℕ)
    → map announcement (announced dac (map (λ _. send_now) (timer_stream interval start took)))
      ≡ replicate (length took) (announcement dac)
unfolding announced timer_stream
announced-sends dac interval start [] = refl
announced-sends dac interval start (d ∷ took) =
    ap (λ r. announcement dac ∷ r) (announced-sends dac interval (start + interval + d) took)

-- Fed by `one_hz_send`, on a socket that takes every datagram and with a buffer of the size of a
-- broadcast, the broadcaster sends a datagram for each tick, the ticks at least a second apart;
-- and all of them are the same encoding of the DAC that it was made with, whatever becomes of the
-- DAC.
pub run-one_hz_send :
    {U : Type 0} {send_to : Bytes → SocketAddr → U → Result IoError ℕ × U} {log : U → List Bytes}
    ⦃w : WriteBytesExt SliceMut⦄ (delivers : Delivers send_to log)
    (writes : WritesLittleEndian slice_write w) (start : ℕ) (took : List ℕ) (self : Broadcaster U)
    → length self.bytes ≡ 36
    → AreApart 1_000_000_000 start (one_hz start took)
      × Announces log self
          (replicate (length took) (announcement self.dac))
          (run send_to (one_hz_send start took) self)
unfolding one_hz_send one_hz
run-one_hz_send {send_to = send_to} {log = log} delivers writes start took self sized = (
  timer_stream-AreApart 1_000_000_000 start took,
  subst (λ out. Announces log self out (run send_to (one_hz_send start took) self))
      (announced-sends self.dac 1_000_000_000 start took)
      (run_lem delivers writes (one_hz_send start took) self sized),
)
