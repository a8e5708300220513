-- ===== src/Lib.antt =====
-- A model of AMPi, an audio driver for programs that run on the Raspberry Pi without an operating
-- system. A program calls `AMPiStart` and then `AMPiPoke` again and again. The driver asks it for
-- chunks of samples and sends them to the firmware of VideoCore through VCHIQ, a message layer taken
-- from the Linux kernel, that stands on a small emulation of the kernel with cooperative threads.
--
-- Parts, from the top down, with the files that model them:
-- - ampi/vc4/sound/vchiqsoundbasedevice.c, the sound device: Sound.antt has the structure
--   (`Device`), its states and messages, and the calls that it makes (`Calls`, a parameter: VCHI, the
--   program's chunk callback and the assertion hook). Sound/Send.antt has `QueueMessage`,
--   `CallMessage` and `WriteChunk`, Sound/Receive.antt the callback for messages of the firmware,
--   Sound/Control.antt `Start`, `Cancel` and `SetControl`. The files below them have the theorems:
--   the packets of a chunk, the bytes in flight, the states, the uses of the service.
-- - ampi/vc4/vchiq/vchiq_util.c, the queue of message headers of a service: Queue.antt, with its
--   refinement to a list in Queue/Refine.antt and Queue/Fifo.antt.
-- - ampi/vc4/vchiq/vchiq_core.c, the messages between the two processors: Slots.antt has message
--   identifiers, sizes and the state of the sending side, Slots/Send.antt `reserve_space` and
--   `queue_message`, Slots/Receive.antt `release_slot` and the loop of `parse_rx_slots`,
--   Slots/Free.antt `process_free_queue`. Messages lie one behind the other in a stream of slots
--   (Slots/Stream.antt); Slots/Arrive.antt puts the two sides together. The handling of messages
--   (`Handlers` of the reader) and what bulk transfers call (`Calls` of Bulk.antt) are parameters.
-- - ampi/vc4/vchiq/vchiq_core.c, bulk transfers: Bulk.antt has the queues with `notify_bulks`,
--   Bulk/Process.antt `resolve_bulks`, `abort_outstanding_bulks` and the message that a transfer is
--   over.
-- - ampi/vc4/vchiq/vchiq_core.c and vchiq_2835_arm.c, remote events: Event.antt.
-- - ampi/vc4/vchiq/vchiq_arm.c, uses of VideoCore and its suspend and resume: Arm.antt has the state
--   with its two state machines, Arm/Use.antt `vchiq_use_internal` and `vchiq_release_internal`.
-- - ampi/vc4/vchiq/vchiq_core.c, the table of services of VCHIQ: Services.antt has the lookups and the
--   references, Services/Add.antt the creation of a service.
-- - ampi/vc4/vchiq/vchiq_core.c, the life of a service: Life.antt and Life/Close.antt have
--   `vchiq_close_service_internal` with what it calls, Life/Diagram.antt the diagram of the states that
--   it follows, Life/Open.antt `parse_open`, Life/User.antt the functions by which a thread opens, closes
--   and removes a service. The state (`Life`) holds the table of Services.antt; sending, callbacks, the
--   bulk queues and the use counts (`Calls`, `OpenCalls`) are parameters that leave the table alone.
-- - ampi/vc4/vchiq/vchiq_core.c, the state of the connection: Connection.antt has the parts of
--   `slot_handler_func` and `parse_rx_slots` that pause and resume it, `pause_bulks`, `resume_bulks`, and
--   the calls by which a thread asks for it. A service's bulk queues and what `queue_message` does inside
--   its lock are parameters (`Calls`).
-- - ampi/vc4/vchiq/vchiq_kern_lib.c, the instances of kernel threads: Instance.antt, with the waiters of
--   blocking bulk transfers in Instance/Waiters.antt.
-- - ampi/vc4/vchiq/vchiq_shim.c, the interface VCHI that the sound device uses: Shim.antt has the messages
--   of a service, over the queue of Queue.antt, and the numbers in a buffer, Shim/Transfers.antt the
--   functions that try again.
-- - ampi/vc4/vchiq/vchiq_2835_arm.c, the list of pages of a bulk transfer: Pagelist.antt.
-- - ampi/vc4/vchiq/vchiq_connected.c, callbacks that wait for the connection: Connected.antt.
-- - ampi/linux/coroutine.c, ampi/linux/kthread.c and `AMPiPoke` of ampi/ampi.c, the threads:
--   Coroutine.antt and Coroutine/Thread.antt.
-- - ampi/linux/semaphore.c, completion.c, mutex.c and rwlock.c, waiting: Sync.antt and the files
--   below it.
-- - ampi/linux/timer.c, kernel timers: Timer.antt.
-- - ampi/linux/synchronize.c and ampi/linux/spinlock.c, critical sections and the data cache:
--   Critical.antt.
-- - ampi/linux/platform_device.c and ampi/linux/device.c, resources: Platform.antt.
--
-- State is passed on explicitly. Code that waits, `while (!condition) ampi_co_yield();`, is a `Task`
-- (Wait.antt): a function of the state and of the list of what the other tasks do to it, one entry for
-- each yield. It gives `none` if the list ends while it still waits. Tasks that are scheduled in any
-- order are step relations (Sync/Mutex.antt, Sync/Rwlock/Tasks.antt). A lock, a semaphore or a
-- completion is a `Cell` of a larger state.
--
-- Words of 32 bits are natural numbers with the wrap-around written out (Base/Words.antt). Loops are
-- structural, but for those with fuel: the packets of a chunk take at least one byte a round and
-- get as many rounds as there are bytes; the range operation on the cache is proved to end within
-- `length / 32 + 3` rounds; the waiting loop of the queue takes a semaphore each time, and one
-- round is enough if there is nothing to wait for, two if one other step frees a slot; a tick of
-- the clock takes a round for each pending timer and one more, if the functions of the timers add
-- none; the loops over messages and bulk transfers take a round for each and one more; the loops of
-- `queue_message` that wait for quota need one round if there is quota, and that of
-- `vchiq_use_internal` if nobody blocks the resume; a thread that closes a service takes a round for
-- each signal to the service, and a function of the shim that tries again one for each retry.
--
-- Not modelled: the registers and stacks of the threads, several cores, memory barriers, logging and
-- statistics, waits that a signal interrupts (there are no signals); the rest of the core of VCHIQ (the
-- set-up of the slots, synchronous messages, the start of a bulk transfer, `poll_services`) and of its platform
-- layers; the printing functions, and the sample programs with their
-- Vorbis decoder.
pub mod Base
pub mod Wait
pub mod Sound
pub mod Queue
pub mod Slots
pub mod Bulk
pub mod Event
pub mod Arm
pub mod Services
pub mod Life
pub mod Instance
pub mod Shim
pub mod Pagelist
pub mod Connected
pub mod Connection
pub mod Coroutine
pub mod Sync
pub mod Timer
pub mod Critical
pub mod Platform
