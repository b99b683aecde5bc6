-- ===== src/Lib.antt =====
-- The verification library of wanbond: executable models of the repository's Go code, translated
-- function by function, with the theorems that make them correct.
--
-- The datagrams of the bonding transport travel in sealed frames (internal/frame), and what arrives
-- over several paths is put back in order by the resequencer (internal/reseq) before it goes to the
-- inner WireGuard device. The receive path of the Bind hands each payload to `Observe`, and takes
-- what is deliverable with `Pop`.
--
-- Reseq models internal/reseq/reseq.go. The fields of `Resequencer` stand in four groups: Buffer
-- (`window`, `next`, `ring`, `buf`, the ready FIFO), Held and Hold (the arrivals behind a gap, its
-- deadline and its accounting) and Guard (the run of suspect sequences). Reseq/Buffer has `release`,
-- `drain`, `advanceTo`, `smallestBuffered`; Reseq/Hold `SetHoldBound`, `oldestBufferedObservation`,
-- `endHoldLocked`, `Close`; Reseq/Guard `tryResync`; Reseq/Machine `New`, `Observe`, `admit`, `expire`,
-- `arm`, `resync`, `Pop`, `RebaselineAt`. The children of each hold its lemmas: Buffer/Window what
-- the ring may hold, Buffer/Reference the unbounded loop that `advanceTo` stands for, Machine/Invariant
-- the invariant, Machine/Trace the runs of calls.
-- Every method holds the lock for its whole body, so a method is one function on the state and an
-- interleaving of the goroutines is a list of calls. The clock's answer is an argument. Payloads are
-- lists of bytes, addresses numbers. A panic sets the field `panicked`.
--
-- Frame models internal/frame/frame.go: Frame/Body the plaintext body, Frame/Envelope the sealed
-- datagram, Frame/Size the sizes on the wire. The ciphers are packages outside the repository: the
-- record `Crypto` has them as parameters, with the documented laws that `Decode` relies on.
-- Frame/Tests instantiates it.
--
-- Telemetry models the parts of internal/telemetry that judge what arrives: Telemetry/Replay
-- `AntiReplay.Accept` of probe.go and `ControlGuard.Admit` of control.go, Telemetry/Reflector the
-- admission of probes (`acceptLocked`) of probe.go, Telemetry/Liveness the machine of liveness.go
-- (`RecordEcho`, `Tick`). Maps are functions, a run is a list of frames or events, and the random
-- source is the list of the words that it is going to deliver.
--
-- Telemetry/Pmtu models the path MTU discovery of pmtu.go: `search`, `confirmCandidate` and `Tick`.
-- The probe is a seam that the device fills, here a parameter, a world that answers each size.
-- Telemetry/Loss models the loss window of estimator.go (`observe`, `bounds`, `fraction`); its results
-- are none where a loop of the source does not end, at the sequence 2 ^ 64 - 1.
--
-- Bond models the lane header and the data frame of internal/bond/wire.go, and the inner MTU of
-- internal/bind/mtu.go; Bond/Header holds the proofs, where the inner WireGuard device, which pads a
-- packet at most to the link MTU, is a parameter. Bond/Ack has the acknowledgement of wire.go,
-- Bond/Hello its hello. Bond/Queue and Bond/Codel model internal/bond/queue.go: the fair queue of
-- small datagrams (`push`, `peek`, `pop`), whose ring is a list, and the drop schedule of the bulk
-- queue, where the square root of `controlLaw` is a parameter. Bond/Receipts models the
-- `receiptWindow` of internal/bond/bond.go, which says what was received before and what an
-- acknowledgement reports; a word of its mask is the function of its bits.
--
-- Bond/Transport models the `Transport` of internal/bond/bond.go: the epochs of the two endpoints
-- (`SetRemote`), the lanes (`Path`, `Disable`), what a frame that arrives does (`Receive`, in
-- Transport/Receive), what is in flight (`ack`, `confirmArrived`, `release` and the timeouts of `Poll`, in
-- Transport/Flight) and what is sent (`transmit`, in Transport/Send). A map is a list, whose order is that
-- of the iteration; packets that the code shares by pointer are known by their delivery sequence,
-- and the mark `acked` is a list of sequences. A lane is its part that is counted in whole numbers: the
-- lane that the scheduler chooses and the timeouts that it derives from its estimates are arguments,
-- so what is proved holds for every choice. Transport/Run has the calls in any order;
-- Transport/Cases the ends that a frame can come to; Transport/Balance, Loops, Kept, Ledgers, Settle, Acked, Valid and Received what a call does to what is in
-- flight; Transport/Reception, Delivered and Once what is handed over; Transport/Words, Accepted and
-- Arrives a datagram from one endpoint to the other; Transport/Acknowledged and Reports the
-- acknowledgement that `Poll` makes of a receiver; Transport/Rejected the errors.
--
-- Device/Exit models internal/device/exitselector.go: which exit owns the default route
-- (`switchLocked`, `setMode`, `evaluateAuto`, `onActiveExhausted`). The engine is the vendored device,
-- the record `Engine` with the law that an accepted insert takes a prefix from its owner.
-- Device/Failover models the `hubFailover` of internal/device/failover.go: which endpoint of a peer is
-- active (`checkLocked`, `updateResolution`). Its exhaustion is what drives `onActiveExhausted`.
-- Failover/History has its runs, Cycle, Outage and Quiet when an endpoint is left.
-- Device/Resolution models internal/device/resolution.go on top of it: the lookups of endpoint names
-- (`step`, `resolveTarget`, `orderAddrPorts`), which reach the fail-over through `updateResolution`.
-- Device/Resize models internal/device/tunresize.go: the MTU of the tunnel link from the MTUs of the
-- paths that are up, which it takes from Telemetry/Pmtu through the inner MTU of Bond.
--
-- Numbers: a uint64 is a native number with its wrap-around written out (`add64`); the theorems on
-- `Observe` ask for a sequence at least a window below 2 ^ 64, which a sender that starts at 1 does
-- not reach in practice.
-- Loops run on fuel: `drain` on `window` (each turn empties a cell), `expire` on one more than the
-- buffered frames (each turn releases one), `advanceTo` and the loops of the loss window on the exact
-- number of their turns.
-- The search of the path MTU halves its interval: the width of the interval is its fuel.
--
-- Not modelled: the bonding scheduler with the estimates of its lanes (floating point), `Enqueue`, the
-- Bind and its sockets, the rest of the device and its routes, the configuration, DNS, metrics and
-- the monitor, and the vendored WireGuard; logging, and the pure accessors of the counters.
pub mod Base
pub mod Bond
pub mod Device
pub mod Frame
pub mod Reseq
pub mod Telemetry
