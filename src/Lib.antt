-- ===== src/Lib.antt =====
-- The shared core of the FireWire audio drivers under sound/firewire: the AMDTP packet streaming
-- engine, its packet buffer, and what the drivers use to manage channels, connections and AV/C
-- commands; the driver for Fireworks devices; and the protocol of Digi 002/003 devices.
--
-- The parts and how they interact:
--   - PacketsBuffer models packets-buffer.c: the slots in DMA memory that packets lie in.
--   - Amdtp models amdtp.c and amdtp.h. `Stream` (Amdtp/Types) is struct amdtp_stream with a log of
--     the calls that leave the driver. Amdtp/Config sets a stream up (amdtp_stream_init,
--     set_parameters, set_pcm_format, set_sync), Amdtp/Control starts and stops it,
--     Amdtp/Callback holds the callbacks of the isochronous context, which handle packets
--     (Amdtp/Packet: handle_out_packet, handle_in_packet) with the CIP header (Amdtp/Cip), the
--     number of data blocks (Amdtp/Rate), the time stamp (Amdtp/Syt), the samples
--     (Amdtp/Samples), the MIDI bytes (Amdtp/Midi), the queue (Amdtp/Queue) and the PCM
--     pointers (Amdtp/Pointer).
--   - Bus models lib.c (Bus/Transaction), iso-resources.c (Bus/Resources) and cmp.c (Bus/Cmp): a
--     connection allocates a channel and bandwidth, and sets a plug register of the device.
--   - Fcp models fcp.c: commands, the handler of responses, and bus resets; Fcp/General its AV/C
--     general commands.
--   - Fireworks models the driver in sound/firewire/fireworks/: Fireworks/Ring
--     the ring buffer of responses (copy_resp_to_buf, hwdep_read_resp_buf), Fireworks/Transaction
--     fireworks_transaction.c, Fireworks/Command fireworks_command.c, which waits for a response through
--     it, Fireworks/Hwdep fireworks_hwdep.c with the lock of fireworks_stream.c, and
--     Fireworks/Stream the rest of that file, which puts Amdtp/Control and Bus/Cmp together.
--   - Digi00x models digi00x-protocol.c: Digi00x/Dot the double-oh-three encoding of samples
--     (dot_scrt, dot_encode_step, write_pcm_s16 and write_pcm_s32), Digi00x/Midi the MIDI bytes in
--     data blocks (with the limit of Amdtp/Midi), Digi00x/Message the handler of messages.
--   - Common has the shared lists, results, integers and the laws of bit operations.
--
-- A packet is the list of its quadlets in the byte order of the CPU; an access outside a buffer or a
-- call through a null pointer is `none`. An errno is a value of `Errno`. Numbers are natural numbers
-- with the wrap of `unsigned int` written out where the source can reach it.
--
-- What is not under sound/firewire is a parameter: the calls of the FireWire core, of ALSA and of the
-- allocator are functions of the events so far (`Env`, `Memory`, `Core`, `World`). Locks, memory
-- barriers and messages to the kernel log are left out: each operation is taken as one step.
--
-- Loops over packets, frames and channels are structural. The loop that queues the first packets
-- has QUEUE_LENGTH rounds of fuel. The retries after bus resets, which the source does not
-- bound, have fuel as an argument: an allocation is shown to end with more fuel than there are bus
-- resets, and the wait for an FCP response is shown not to end after one. At the end of the fuel the
-- result is `none`. The loops that copy to and from the ring buffer have fuel for two rounds, the most
-- that they make, and the test behind them. A command of the Fireworks driver makes three
-- rounds at most, unless a bus reset comes.
--
-- Not modelled: the hardware constraints of amdtp_stream_add_pcm_hw_constraints, the drivers for single devices (bebob, dice, oxfw, isight, scs1x), the streams
-- of Digi 002/003 devices, the PCM and MIDI devices of both drivers, and the test programs.
pub mod Common
pub mod PacketsBuffer
pub mod Amdtp
pub mod Bus
pub mod Fcp
pub mod Fireworks
pub mod Digi00x
