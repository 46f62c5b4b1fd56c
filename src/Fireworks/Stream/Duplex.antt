-- ===== src/Fireworks/Stream/Duplex.antt =====
-- Starting the streams of both directions: what the master is at the end.
use snd_firewire_improve.Common.{ℕ, ◌≡◌, ◌≢◌, ◌⊎◌, is_negative, true, false, some, ok}
use snd_firewire_improve.Amdtp.Types.{Stream}
use snd_firewire_improve.Amdtp.Pointer.{running}
use snd_firewire_improve.Fireworks.Command.{snd_efw_command_get_sampling_rate}
use snd_firewire_improve.Fireworks.Stream.{Host, Efw, Duplex}
use snd_firewire_improve.Fireworks.Stream.Master.{settings, IsRestarted}

-- The rate that is wanted where the device answers with this one.
abbrev pub IsWanted : ℕ → ℕ → ℕ → Type 0
IsWanted asked present wanted =
    ((asked ≡ 0) × (wanted ≡ present)) ⊎ ((asked ≢ 0) × (wanted ≡ asked))

-- The master after a start: it ran before, without a queueing error and at the wanted rate, and is
-- as it was; or it was started anew.
pub data IsMaster (host : Host) (efw : Efw) (wanted present : ℕ) (d : Duplex) : Type 0 where
  kept :
      running efw.tx.stream ≡ true
      → is_negative efw.tx.stream.packet_index ≡ false
      → present ≡ wanted
      → d.1.tx ≡ efw.tx
      → IsMaster host efw wanted present d
  restarted : IsRestarted host (settings efw) wanted d → IsMaster host efw wanted present d

-- What is left of a master before the question for the rate.
pub record IsLeft (first efw : Efw) : Type 0 where
  pub same : settings efw ≡ settings first
  pub tx :
      ((efw.tx ≡ first.tx) × (is_negative first.tx.stream.packet_index ≡ false))
      ⊎ (running efw.tx.stream ≡ false)

-- The device has answered with its present rate, and the master is one for the wanted rate.
pub record HasMaster (host : Host) (asked : ℕ) (efw : Efw) (d : Duplex) : Type 0 where
  pub present : ℕ
  pub wanted : ℕ
  pub answered :
      (n : ℕ) × (m : ℕ) × (snd_efw_command_get_sampling_rate host.fuel host.port n
        ≡ some (ok present, m))
  pub rate : IsWanted asked present wanted
  pub master : IsMaster host efw wanted present d

-- The same master, with the same settings.
record IsSame (first efw : Efw) : Type 0 where
  tx : efw.tx ≡ first.tx
  set : settings efw ≡ settings first
