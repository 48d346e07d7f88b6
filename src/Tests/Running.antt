-- ===== src/Tests/Running.antt =====
-- The default example, when the socket of its broadcaster fails after its listener has.
use ether_dream.Base.{ℕ, ◌≡◌, refl, List, [], ◌∷◌, Option, none, some, Result, ok, err}
use ether_dream.Io.{IoError, timed_out, other, ◌>>◌}
use ether_dream.Io.Bytes.{Bytes, le_bytes}
use ether_dream.Io.Slice.{slice_write_all}
use ether_dream.Protocol.Encode.{write_dac_broadcast, write_dac_status}
use ether_dream.Dac.Convert.{status_from_protocol}
use ether_dream.Emulator.{Output}
use ether_dream.Emulator.Setup.{SocketAddr, default_description, initial_status, new}
use ether_dream.Emulator.Broadcast.{run, send}
use ether_dream.Emulator.Broadcast.Timer.{one_hz_send}
use ether_dream.Examples.Default.{listen}
use ether_dream.Examples.Running.{running, ended, Res, WaitsForBoth, main, Blames, main-Blames}
use ether_dream.Tests.{slice_writer, flags}

abbrev bind : SocketAddr → Result IoError ℕ
bind a = ok a.port

abbrev set_option : ℕ → Result IoError (Unit {0})
set_option u = ok tt

abbrev refuses : Bytes → SocketAddr → ℕ → Result IoError ℕ × ℕ
refuses bs a u = (err other, u)

unfoldable join : Option Res → Option Res → Option (Res × Res)
join (some a) (some b) = some (a, b)
join (some a) none = none
join none y = none

join-WaitsForBoth : WaitsForBoth join
unfolding join
join-WaitsForBoth = record { both = λ a b. refl; first = λ y. refl; second = second }
  where
    second : (x : Option Res) → join x none ≡ none
    second (some a) = refl
    second none = refl

-- The listener fails at once.
abbrev unheard : List (Result IoError (ℕ × List Output))
unheard = err timed_out ∷ []

-- Before the first tick the program runs on, although the listener has failed.
runs_on : (main join bind set_option bind refuses 0 [] unheard).1 ≡ running
unfolding main new status_from_protocol initial_status join run one_hz_send
runs_on = refl

fails : (main join bind set_option bind refuses 0 (0 ∷ []) unheard).1 ≡ ended (err other)
unfolding main new status_from_protocol initial_status join run one_hz_send send write_dac_broadcast
    ◌>>◌ slice_write_all le_bytes write_dac_status listen
fails = refl

main-Blames_example :
    Blames join bind set_option bind refuses 0 (0 ∷ []) default_description (err other)
main-Blames_example =
    main-Blames join bind set_option bind refuses 0 (0 ∷ []) join-WaitsForBoth unheard (err other)
      fails
