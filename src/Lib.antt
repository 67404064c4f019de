-- ===== src/Lib.antt =====
-- A model of qfabric: quantum key distribution experiments whose classical and photon traffic runs
-- over real networks. qne/ holds the protocol itself, qne-sequence/qne_sequence/ what lets
-- simulated nodes run on different machines.
--
-- How the parts interact: a photon travels as a 17-byte header in an Ethernet frame (Photon.antt,
-- of qne/photon.py). Bob measures it with a detector (Detector.antt, of qne/detector.py:
-- `detect_at` is `_detect`), perhaps after an eavesdropper (Eve.antt, of qne/eve.py). Sifting.antt
-- has the protocol's arithmetic (qne/bb84.py, its key rates in Sifting/Rates.antt). Exchange.antt
-- is the conversation in which Alice and Bob sift, sample, estimate the error and reconcile
-- (Exchange/Alice.antt of qne/alice.py, Exchange/Matching.antt and Exchange/Bob.antt of qne/bob.py;
-- `run_sifting` of Exchange/Run.antt plays both `_run_sifting` against each other).
-- DistributedQkd.antt is the same protocol between simulated nodes
-- (qne-sequence/qne_sequence/distributed_qkd.py: reception and `_finalize_detections` in
-- DistributedQkd.antt, the messages that end a train in DistributedQkd/Sift.antt, with the labels
-- of a decoy source in DistributedQkd/Decoy.antt). Bob corrects his sifted key towards Alice's with
-- Cascade, which asks her for parities (Cascade.antt, of qne/cascade.py: `bisect` is
-- `_binary_correct`, `open_pass`, `drain` and `run_pass` are the body of `reconcile`'s loop over
-- passes). The frames of the classical channel carry a sequence number and a MAC (Auth.antt, of
-- qne/auth.py: `open_frame` is `FrameAuthenticator.open`). Between machines, messages go over a
-- reliable link of datagrams (ReliableLink.antt, of qne-sequence/qne_sequence/l2_link.py:
-- `handle_data`, and `handle_packet` of ReliableLink/Dispatch.antt, are the methods with an
-- underscore; the retry loop of `send` is ReliableLink/Send.antt). The exchange that ends with the
-- secret key is KeyAgreement.antt (qne/reconcile.py: `serve` is `serve_parities` for one frame,
-- `session` closes `drive_cascade` with it), on the hash of Privacy.antt (qne/privacy.py) and, over
-- sockets, on the frames of Channel.antt (qne/channel.py). The simulated nodes advance their clocks
-- under a coordinator, which grants a bound when all have reported and no message is in flight
-- (TimeAuthority.antt, of qne-sequence/qne_sequence/time_authority.py: `maybe_grant` is
-- `_maybe_grant_locked`, `handle` one round of `_node_loop`), and each runs only what is granted
-- (Timeline.antt, of qne-sequence/qne_sequence/conservative_timeline.py). Frames from another
-- machine reach the local timeline through Listener.antt (qne-sequence/qne_sequence/listener.py),
-- and those of a later phase through RemoteCall.antt (qne-sequence/qne_sequence/remote_qm.py).
-- Before a run, one round trip aligns the clocks of two machines (TimeSync.antt, of
-- qne-sequence/qne_sequence/timesync.py: `sync_serving` and `sync_connecting` are the two sides of
-- `sync_link`).
--
-- The entanglement experiments keep all qubits in one register (QState.antt, of
-- qne-sequence/qne_sequence/qstate_core.py, on the linear algebra of Tensors.antt;
-- QState/Gates.antt has its general gates), which a service owns (QuantumService.antt, of
-- qne-sequence/qne_sequence/quantum_state_service.py). A repeater chain swaps the pairs of its
-- links into one between its ends (Repeater.antt, of qne-sequence/qne_sequence/repeater.py:
-- `run_rounds` is the loop of `run_chain_session`, `attempt` its swaps and correction), and
-- distributed gates spend pairs on teleportation and the non-local CNOT (Dqc.antt, of
-- qne-sequence/qne_sequence/dqc.py: `teleport_shot` and `read_out` are a teleport of
-- `run_dqc_session`). numpy's complex numbers are a parameter (Amplitudes.antt). The theorems about
-- states assume `IsExact`, the laws of exact arithmetic with 0, 1, - and 1/√2, which floats keep up
-- to rounding; Amplitudes/Seven.antt has an arithmetic that keeps them all.
--
-- Bytes.antt has Python's `struct` for big-endian fields. A method of an object is a function from
-- its state to its new state; an exception is an `err` of Prelude/Result.antt; a dict is a list of
-- its entries. What a thread hears while it waits is an argument, one list for each wait. A handler
-- that runs under a lock is one step; where several threads or nodes act, their steps are a list in
-- the order in which they take the lock.
--
-- The loops of Cascade run on fuel: `bisect` on the block's length and one more, since each round
-- shortens the block; `drain` on the number of positions times two more than the pass, which bounds
-- the corrections and the blocks that each of them can open again. The receive loop of a channel
-- runs on as many rounds as bytes are asked for. The loop of `send` runs on the number of retries,
-- as in the source.
--
-- Not modelled: sockets, threads' waits and time-outs, JSON and the simulators that the repository
-- calls. A permutation, a digest, the floats (Floats.antt) and numpy's random generators
-- (Random.antt) are parameters; `IsGenerator` states what numpy documents of a choice without
-- replacement. Times are whole picoseconds; the authority's conversion of them to Python floats is
-- a parameter, and its theorems ask that it is exact up to 2^53. The finite-key output length, the
-- decoy-state rates, the statistics of correlations (CHSH), the registers of Qiskit and SeQUeNCe,
-- the nodes of the distributed experiments, the experiments' drivers, the plots and the deployment
-- scripts are left out.
pub mod Prelude
pub mod Floats
pub mod Random
pub mod Cascade
pub mod Bytes
pub mod Photon
pub mod Amplitudes
pub mod Tensors
pub mod QState
pub mod QuantumService
pub mod Repeater
pub mod Dqc
pub mod Auth
pub mod Detector
pub mod Eve
pub mod ReliableLink
pub mod TimeAuthority
pub mod Privacy
pub mod KeyAgreement
pub mod Channel
pub mod Listener
pub mod Sifting
pub mod Exchange
pub mod DistributedQkd
pub mod RemoteCall
pub mod TimeSync
pub mod Timeline
