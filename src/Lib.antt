-- ===== src/Lib.antt =====
-- A verification library for ask-herdr, a command-line companion of the Herdr runtime that
-- keeps durable metadata of its projects and reads it back.
--
-- The program is a set of Python modules under lib/. A Lane holds turns; each turn is one
-- attempt at an operation (consult, answer, review, a recovery or a retry), admitted by policy,
-- given a workspace by the topology part, dispatched to a provider, and closed by one final
-- response. The pure reducer of lib/ask_herdr_lane_turn.py decides every change of such an
-- attempt. The lane store (lib/ask_herdr_lane_store.py) persists its events and replays them
-- through the reducer, and the other stores, the coordinator and the command line stand round
-- it. A reader of the project takes the heads of three stores in one Project Read Epoch
-- (lib/ask_herdr_project_read_epoch.py), so that a status page never mixes two moments. From
-- such a snapshot lib/ask_herdr_project_status.py selects what it reports.
--
-- Files:
-- - Base and its children: the shared names, Boolean tests, Python's == as the interface Eq
--   with its law, results that may raise, lists and texts.
-- - LaneTurn/Kinds, Guards, Events/*: the enumerations of lib/ask_herdr_lane_turn.py, its field
--   validators with their regular expressions as sequences of character classes, and its event
--   classes, each with the validator of its __post_init__ (validate_...).
-- - LaneTurn/State, Correlation, Topology, Settlement, Delivery, Response, Reducer:
--   LaneTurnState, _prepare, the correlation tests, each _reduce_... function and reduce_turn,
--   under the names of the source without the leading underscore. A raised TurnTransitionError
--   or ValueError is the error of a Result with the same detail code. A sequence of if-and-
--   raise is kept as nested tests in the source's order; a long condition has a name of its own
--   (claim_is_admissible is the source's, command_is_admissible and anchor_is_admissible are
--   the negations of the inline tests).
-- - LaneTurn/Steps, Steps/Handlers, Steps/Refinement: the accepted branches of the reducers as
--   a step relation, the basis of the inductions below.
-- - LaneTurn/Outcome, Promotion, Provisioning, Commands, Anchors, NativeIdentity, Release,
--   Permanence, Frame: invariants, each over the steps.
-- - LaneTurn/Invariant, Histories, Quarantine, Idempotence, Delivered: what holds over one
--   event and over whole histories.
-- - LaneTurn/Stages: the stages of an attempt as its caller sees them, and the abstract machine
--   whose moves lead from one to the next.
-- - LaneTurn/Tests/*: sample attempts (without a policy, under a direct-human policy, resumed
--   and forked), their runs, and the theorems at them.
-- - ReadEpoch/Entries, Observation, Acquire: the acquisition of
--   lib/ask_herdr_project_read_epoch.py, from _parts to _acquire_project_read_epoch_snapshot.
--   What the three stores answer is an argument, a pair of observations for each attempt; the
--   digests are the parameter Digests and the clock the argument Clock.
-- - ReadEpoch/Status, Settled, Stable, Acquired: the status of three heads, the result of a
--   stable attempt, the range of attempts, and what the acquisition returns.
-- - ReadEpoch/Tests: a project whose first reading drifts, and the theorems at it.
-- - StrictJson/Values, Canonical, Integers, Digest: lib/ask_herdr_json.py. JSON values as data
--   types, canonical_json with its order of keys, _parse_integer, and the digest of a value.
--   What json, hashlib and base64 of the standard library do is the parameter Encodings.
-- - StrictJson/Errors, Tests: when canonical_json raises, and values at which the theorems are
--   applied.
-- - ProjectStatus/Find, Entries, Operations: _operation_snapshot_maps and _operation_selection
--   of lib/ask_herdr_project_status.py with their validators. A dictionary is a first-match
--   lookup in its tuple, where the code has refused a repeated key; a loop that returns None
--   early is a Boolean test over all entries.
-- - ProjectStatus/Cursor, Select, Pages, Readers: _encode_cursor and _decode_cursor (a cursor
--   is the list of its characters), _select_entries, _read_status in the parts page_start,
--   next_cursor_of, page_result, page_of and read_snapshot, and the four readers. The snapshot
--   of the epoch is an argument.
-- - ProjectStatus/Joins, Bound, RoundTrip, Positions, Enumeration, Stale, Order: what the
--   selection of one operation joins, the round trip of a cursor, a client that follows the
--   cursors, the epoch of a page, and the order of the entries.
-- - ProjectStatus/Tests, PageTests: two snapshots at which the theorems are applied.
--
-- Transport. lib/ask_herdr_herdr_transport.py creates or adopts the workspace of a lane through
-- an injected runner of Herdr commands, and lib/ask_herdr_journaled_provision.py writes each
-- command's intent before it and its receipt after it. Transport/Proofs has the proofs of
-- lib/ask_herdr_topology_contract.py and the data, Transport/Actions what a call does to the
-- world: the transport's dictionaries, the port's fields and a log of the commands and of what
-- the store answered. Commands is _command and the two readers, Sessions and Workspaces the
-- checks of what Herdr answers, Verification _verify_project and _verify_snapshot, Provision
-- the method provision, Entries and Journal the port with the checks that the entries of
-- lib/ask_herdr_topology_store.py make of themselves. The runner, json.loads, SHA-256,
-- normpath, the store's commits under their lease and the binding digest of the workspace in
-- the file system are parameters, and what they answer may depend on the whole log. A lease may
-- be refused, or fail as it is given back behind a commit that has recorded its intent
-- (ClaimedAnswer). WriteAhead reads a log as its reader would, Stages, Steps, Readers, Triples
-- and Discipline show the order of journal and commands, Results and Adoption what a provision
-- returns and when it only reads, RequestIds which answers are accepted. The messages of errors
-- and the receipts that an error or a result carries are left out (the log has the commands),
-- as are _receipts_by_digest and _session_generations, which are written and never read.
-- Responses with numbers that are no integers have no value in the model.
--
-- How the model is read. A Python str is a native text, an int that the validators bound from
-- below is a native natural number (a negative one is refused by the same test as 0), an
-- Optional is an Option, a tuple is a list. A native text holds Unicode scalars, so a str with
-- a lone surrogate, which _validate_unicode_scalars of lib/ask_herdr_json.py refuses, has no
-- value in the model, and that test no counterpart. Tests on Python types hold by the types
-- here. Enumerations are compared by Boolean tests on their constructors, dataclasses by
-- equality of all fields. No definition needs fuel: the loops run over tuples, and the
-- acquisition over its three attempts (_MAXIMUM_COMPLETE_ATTEMPTS).
--
-- Not modelled: the files, locks and digests of the stores, the coordinators over them, the
-- dispatch and release of the transport to Herdr, the request schemas and the command line.
-- They are I/O, data, or parts beside those modelled here.
pub mod Base
pub mod LaneTurn
pub mod StrictJson
pub mod ReadEpoch
pub mod ProjectStatus
pub mod Transport
