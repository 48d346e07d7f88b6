-- ===== src/Tests/Conversion.antt =====
-- Statuses and addresses at single values.
use ether_dream.Base.{◌≡◌, refl, ok}
use ether_dream.Protocol.{DacStatus}
use ether_dream.Dac.{Status, playing}
use ether_dream.Dac.Convert.{status_from_protocol, status_to_protocol, update}
use ether_dream.Dac.Conversion.{status_to-from, without_unknown_flags}
use ether_dream.Dac.Update.{Agrees, update-Agrees}
use ether_dream.Tests.{flags, flags_laws, status, prepared_status}

-- A bit of no declared flag.
abbrev flagged : DacStatus
flagged = record status { playback_state = 2; light_engine_flags = 65; point_rate = 30000 }

abbrev flagged_status : Status
flagged_status = record (prepared_status 0) {
  playback = playing;
  light_engine_flags = record { bits = 1 };
  point_rate = 30000;
}

flagged-accepted : status_from_protocol flagged ≡ ok flagged_status
unfolding status_from_protocol
flagged-accepted = refl

status_to-from_example : status_to_protocol flagged_status ≡ without_unknown_flags flagged
status_to-from_example = status_to-from flags_laws flagged flagged-accepted

abbrev bad_source : DacStatus
bad_source = record status { playback_state = 2; source = 9 }

update-Agrees_example :
    Agrees
      (prepared_status 7)
      bad_source
      (status_from_protocol bad_source)
      (update (prepared_status 7) bad_source)
update-Agrees_example = update-Agrees (prepared_status 7) bad_source
