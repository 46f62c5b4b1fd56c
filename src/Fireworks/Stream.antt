-- ===== src/Fireworks/Stream.antt =====
-- The streams of a Fireworks device: sound/firewire/fireworks/fireworks_stream.c, which puts an AMDTP
-- stream and a connection together for each direction. `none` is a fault, or the end of the fuel of
-- what is called.
pub mod Start
pub mod Live
pub mod Master
pub mod Duplex
use snd_firewire_improve.Common.{
  ℕ, zero, suc, ◌+◌, ◌*◌, ◌^◌, Bool, true, false, not, ◌&&◌, ◌||◌, ◌==◌, ltb, if◌then◌else◌,
  is_negative, List, [], ◌∷◌, get_elem?, Option, some, none, ◌>>=◌, Result, ok, err, einval, ebusy,
  enosys, etimedout,
}
use snd_firewire_improve.Bus.{Event, Core}
use snd_firewire_improve.Bus.Cmp.{
  Connection, establish, break_connection, check_used, update, Outcome,
}
use snd_firewire_improve.Amdtp.Types.{Env, Stream}
use snd_firewire_improve.Amdtp.Pointer.{running, pcm_abort}
use snd_firewire_improve.Amdtp.Queue.{get_max_payload}
use snd_firewire_improve.Amdtp.Config.{set_parameters, set_sync}
use snd_firewire_improve.Amdtp.Control.{start, stop, update_node}
use snd_firewire_improve.Fireworks.Command.{
  Port, snd_efw_command_get_clock_source, snd_efw_command_get_sampling_rate,
  snd_efw_command_set_sampling_rate,
}

-- A stream with its connection: `tx_stream` with `out_conn`, or `rx_stream` with `in_conn`.
pub record Side : Type 0 where
  pub stream : Stream
  pub conn : Connection

-- What the streams meet: the AMDTP engine's surroundings, the FireWire core, the device for
-- commands, the fuel for all of them, and what the callbacks make of a stream that waits for the
-- first of them.
pub record Host : Type 0 where
  pub env : Env
  pub core : Core
  pub port : Port
  pub fuel : ℕ
  pub wait : Stream → Stream

-- The fields of `struct snd_efw` for streams. The log is that of the FireWire core.
pub record Efw : Type 0 where
  pub tx : Side
  pub rx : Side
  pub pcm_capture_channels : List ℕ
  pub pcm_playback_channels : List ℕ
  pub midi_in_ports : ℕ
  pub midi_out_ports : ℕ
  pub capture_substreams : ℕ
  pub playback_substreams : ℕ
  pub seqnum : ℕ
  pub log : List Event

-- `stop_stream`
unfoldable pub stop_stream : Host → Side → List Event → Option (Side × List Event)
stop_stream host side log = break_connection host.fuel host.core side.conn log >>= λ c.
    some (record { stream = stop (pcm_abort side.stream); conn = c.0 }, c.1)

abbrev pub SideOutcome : Type 0
SideOutcome = Result (Unit {0}) × Side × List Event

-- What follows `amdtp_stream_start`: the wait for the first callback.
unfoldable pub after_start :
    Host → Connection → List Event → Result (Unit {0}) × Stream → Option SideOutcome
after_start host c log (err e, s) =
    stop_stream host (record { stream = s; conn = c }) log >>= λ t. some (err e, t.0, t.1)
after_start host c log (ok u, s) =
    let side : Side = record { stream = host.wait s; conn = c } in
    let stopped : Option SideOutcome =
      stop_stream host side log >>= λ t. some (err etimedout, t.0, t.1) in
    if side.stream.callbacked then some (ok tt, side, log) else stopped

-- What follows `cmp_connection_establish`.
unfoldable pub after_establish : Host → Stream → Outcome → Option SideOutcome
after_establish host s (err e, c, log) = some (err e, record { stream = s; conn = c }, log)
after_establish host s (ok u, c, log) =
    start host.env s c.resources.channel c.speed >>= λ q. after_start host c log q

-- `start_stream` from `amdtp_stream_set_parameters` on.
unfoldable pub start_side : Host → Side → List Event → ℕ → ℕ → ℕ → Option SideOutcome
start_side host side log rate pcm_channels midi_ports =
    let s = set_parameters side.stream rate pcm_channels midi_ports in
    establish host.fuel host.core side.conn log (get_max_payload s) >>= λ o.
    after_establish host s o

-- `snd_efw_get_multiplier_mode`, over `freq_table`.
abbrev pub freq_table : List ℕ
freq_table = 32000 ∷ 44100 ∷ 48000 ∷ 88200 ∷ 96000 ∷ 176400 ∷ 192000 ∷ []

abbrev pub modes : List ℕ
modes = 0 ∷ 0 ∷ 0 ∷ 1 ∷ 1 ∷ 2 ∷ 2 ∷ []

unfoldable pub mode_from : List ℕ → List ℕ → ℕ → Option ℕ
mode_from [] ms rate = none
mode_from (f ∷ fs) [] rate = none
mode_from (f ∷ fs) (m ∷ ms) rate =
    let rest = mode_from fs ms rate in if f == rate then some m else rest

-- `start_stream` for the channels of each mode, and its part behind the mode.
unfoldable pub start_in_mode :
    Host → Side → List Event → ℕ → List ℕ → ℕ → Option ℕ → Option SideOutcome
start_in_mode host side log rate channels midi_ports none = some (err einval, side, log)
start_in_mode host side log rate channels midi_ports (some mode) =
    get_elem? channels mode >>= λ pcm_channels.
    start_side host side log rate pcm_channels midi_ports

unfoldable pub start_stream : Host → Side → List Event → ℕ → List ℕ → ℕ → Option SideOutcome
start_stream host side log rate channels midi_ports =
    start_in_mode host side log rate channels midi_ports (mode_from freq_table modes rate)

abbrev pub Duplex : Type 0
Duplex = Result (Unit {0}) × Efw

-- The next step, where the last one succeeded.
abbrev pub and_then : Duplex → (Efw → Option Duplex) → Option Duplex
and_then (ok u, efw) next = next efw
and_then (err e, efw) next = some (err e, efw)

-- The next step with the value of a command, and the number that the command left.
abbrev pub with_value : Result ℕ × ℕ → Efw → (ℕ → Efw → Option Duplex) → Option Duplex
with_value (ok v, seqnum) efw next = next v (record efw { seqnum = seqnum })
with_value (err e, seqnum) efw next = some (err e, record efw { seqnum = seqnum })

-- `get_sync_mode`, where SND_EFW_CLOCK_SOURCE_SYTMATCH is 1. Otherwise the mode is always
-- CIP_SYNC_TO_DEVICE, so that the transmitted stream is the master.
unfoldable pub get_sync_mode : Host → Efw → Option Duplex
get_sync_mode host efw = snd_efw_command_get_clock_source host.fuel host.port efw.seqnum >>= λ r.
    with_value r efw (λ source e. some (if source == 1 then err enosys else ok tt, e))

-- `check_connection_used_by_others` for the master.
unfoldable pub check_connection_used_by_others : Host → Efw → Duplex
check_connection_used_by_others host efw =
    let u = check_used host.core efw.tx.conn efw.log in
    (used_result u.0 (running efw.tx.stream), record efw { log = u.1 })
  where
    used_result : Result Bool → Bool → Result (Unit {0})
    used_result (err e) is_running = err e
    used_result (ok used) is_running = if used && not is_running then err ebusy else ok tt

-- `stop_stream` for one of the streams.
unfoldable pub stop_tx : Host → Efw → Option Efw
stop_tx host efw =
    stop_stream host efw.tx efw.log >>= λ t. some (record efw { tx = t.0; log = t.1 })

unfoldable pub stop_rx : Host → Efw → Option Efw
stop_rx host efw =
    stop_stream host efw.rx efw.log >>= λ t. some (record efw { rx = t.0; log = t.1 })

-- The stops after packet queueing errors, and those for another rate.
unfoldable pub stop_failed : Host → Efw → Option Efw
stop_failed host efw =
    (if is_negative efw.rx.stream.packet_index then stop_rx host efw else some efw) >>= λ e.
    if is_negative e.tx.stream.packet_index then stop_tx host e else some e

unfoldable pub stop_both : Host → Efw → Option Efw
stop_both host efw = stop_rx host efw >>= λ e. stop_tx host e

-- The master's start, and before it the synchronisation and the rate.
unfoldable pub start_rated : Host → ℕ → Efw → Option Duplex
start_rated host rate efw =
    start_stream host efw.tx efw.log rate efw.pcm_capture_channels efw.midi_out_ports >>= λ o.
    some (o.0, record efw { tx = o.1; log = o.2 })

unfoldable pub synchronised : Efw → Efw
synchronised efw =
    let synced = set_sync true efw.tx.stream efw.rx.stream in
    record efw {
      tx = record (efw.tx) { stream = synced.0 };
      rx = record (efw.rx) { stream = synced.1 };
    }

unfoldable pub start_master : Host → ℕ → Efw → Option Duplex
start_master host rate efw =
    snd_efw_command_set_sampling_rate host.fuel host.port efw.seqnum rate >>= λ r.
    and_then (r.0, record (synchronised efw) { seqnum = r.1 }) (start_rated host rate)

-- The slave's start; the master is stopped when it fails.
unfoldable pub slave_started : Host → Duplex → Option Duplex
slave_started host (ok u, efw) = some (ok tt, efw)
slave_started host (err e, efw) = stop_tx host efw >>= λ t. some (err e, t)

unfoldable pub start_slave : Host → ℕ → Efw → Option Duplex
start_slave host rate efw =
    start_stream host efw.rx efw.log rate efw.pcm_playback_channels efw.midi_in_ports >>= λ o.
    slave_started host (o.0, record efw { rx = o.1; log = o.2 })

-- The starts that are needed.
unfoldable pub slave_if_needed : Host → ℕ → Efw → Option Duplex
slave_if_needed host rate efw =
    if ltb 0 efw.playback_substreams && not (running efw.rx.stream)
    then start_slave host rate efw
    else some (ok tt, efw)

unfoldable pub start_needed : Host → ℕ → Efw → Option Duplex
start_needed host rate efw =
    let master = start_master host rate efw >>= λ d. and_then d (slave_if_needed host rate) in
    if running efw.tx.stream then slave_if_needed host rate efw else master

-- From the present rate on.
unfoldable pub start_at : Host → ℕ → ℕ → Efw → Option Duplex
start_at host rate curr_rate efw =
    let wanted = if rate == 0 then curr_rate else rate in
    (if wanted == curr_rate then some efw else stop_both host efw) >>= λ e.
    start_needed host wanted e

-- From the question for the present rate on, and from the check of the connection on.
unfoldable pub start_rate : Host → ℕ → Efw → Option Duplex
start_rate host rate efw = snd_efw_command_get_sampling_rate host.fuel host.port efw.seqnum >>= λ r.
    with_value r efw (start_at host rate)

unfoldable pub start_checked : Host → ℕ → Efw → Option Duplex
start_checked host rate efw =
    and_then (check_connection_used_by_others host efw)
      (λ e. stop_failed host e >>= λ e'. start_rate host rate e')

-- `snd_efw_stream_start_duplex`
unfoldable pub snd_efw_stream_start_duplex : Host → ℕ → Efw → Option Duplex
snd_efw_stream_start_duplex host rate efw =
    let started = get_sync_mode host efw >>= λ d. and_then d (start_checked host rate) in
    if efw.playback_substreams == 0 && efw.capture_substreams == 0
    then some (ok tt, efw)
    else started

-- `snd_efw_stream_stop_duplex`, where the master is the transmitted stream.
unfoldable pub snd_efw_stream_stop_duplex : Host → Efw → Option Efw
snd_efw_stream_stop_duplex host efw =
    let both =
      stop_rx host efw >>= λ e. if efw.capture_substreams == 0 then stop_tx host e else some e in
    if efw.playback_substreams == 0 then both else some efw

abbrev pub is_failure : Result (Unit {0}) → Bool
is_failure (ok u) = false
is_failure (err e) = true

-- `snd_efw_stream_update_duplex`
unfoldable pub snd_efw_stream_update_duplex : Host → Efw → Option Efw
snd_efw_stream_update_duplex host efw = update host.fuel host.core efw.tx.conn efw.log >>= λ o.
    let e = record efw { tx = record (efw.tx) { conn = o.1 }; log = o.2 } in
    let next = update host.fuel host.core e.rx.conn e.log >>= λ i.
    let e' = record e { rx = record (e.rx) { conn = i.1 }; log = i.2 } in
    if is_failure i.0 then stop_both host e' else some (updated e') in
    if is_failure o.0 then stop_both host e else next
  where
    updated : Efw → Efw
    updated e = record e {
      rx = record (e.rx) { stream = update_node host.env e.rx.stream };
      tx = record (e.tx) { stream = update_node host.env e.tx.stream };
    }
