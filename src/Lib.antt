-- ===== src/Lib.antt =====
-- The registry of wildfires of the Fire Viewer backend: the rules by which an observation is matched to
-- an incident, reviewed and made public, and the dispatcher that sends private media to a remote worker
-- at most once.
--
-- The program is a set of services over one database session (SQLAlchemy). A service reads rows,
-- tests them, writes rows together with an audit entry, an outbox event and an idempotency record,
-- and commits. The parts and their files:
--   Platform, Errors, Session    Python values and what JSON and SHA-256 give
--                                (src/fire_viewer/domain/hashing.py; the other paths
--                                below are under src/fire_viewer/ too), the exceptions
--                                (domain/errors.py), and the session as a function of the durable
--                                store and the working copy
--   Enums, Actor                 domain/enums.py, and the role tests of core/security.py
--   Ledger, Call                 record_audit, emit_outbox (services/common.py), find_replay and
--                                store_response (services/idempotency.py), and the frame that each
--                                mutating service puts around its body
--   Doubles, Geospatial          the floating-point operations, Python's text tools and the settings
--                                (core/config.py) as arguments, and domain/geospatial.py
--   Incident.StateMachine        domain/state_machine.py
--   Incident.Visibility          domain/public_visibility.py
--   Incident.Rows                IncidentSeries, Episode, Observation, Source (db/models.py)
--   Incident.Lifecycle, Incident.Transition
--                                services/transitions.py, transition_incident
--   Incident.FireId              core/ids.py: format_fire_id, format_episode_id, FIRE_ID_RE
--   Incident.Create              services/common.py: allocate_fire_id, create_incident_and_episode,
--                                create_reactivation_episode
--   Incident.Sound               the invariant of the tables of db/models.py
--   Evidence.Select              services/evidence_policy.py, _maximum_independent_set
--   Evidence.Recalculate         services/evidence_policy.py, recalculate_episode_evidence
--   Dispatch.Rows, Dispatch.Transport, Dispatch.Finish
--                                services/agent_dispatcher.py: the rows, the two remote clients, and
--                                _dead_letter, _schedule_poll_retry, _release_lease
--   Dispatch.Submit, Dispatch.Complete, Dispatch.Poll, Dispatch.Cancel, Dispatch.Handlers
--                                _submit, _complete, _poll, _cancel, process_claimed_dispatch
--   Dispatch.Claim               claim_next_dispatch and purge_due_agent_media
--   Dispatch.Runs                any sequence of claims, purges and interrupted runs on one dispatch
--   Matching                     domain/matching.py (score_candidate, match_observation) and
--                                services/candidates.py (find_candidates)
--   Reviews                      services/reviews.py, resolve_review, with services/retention.py
--   Detection                    services/detection.py: _validate_times, _resolve_source and
--                                process_detection
--   Courses                      transitions, reviews and detections one after another
--   Examples                     the theorems at concrete inputs
-- transition_incident, resolve_review, process_detection and recalculate_episode_evidence meet in the
-- rows of the registry and in canonical_public_visibility; resolve_review and process_detection call the
-- creation and the reactivation of incidents and the recalculation, process_detection the matching.
--
-- Readings of the model. An instant is a number of microseconds, and each reading of the clock is an
-- argument. A float is its rank among the finite doubles; what the code computes with floats is a record
-- of operations on ranks (Doubles), of which nothing is assumed. A database gives the keys of inserted
-- rows, which are arguments. The spatial test of a database and its order of the rows are arguments too.
-- Writers are serialised (db/transactions.py, and the lock of run_dispatcher_once), so a request is
-- one function of the store. A run of the dispatcher is the list of its commits and remote requests,
-- and a process that stops leaves a prefix of that list. JSON, SHA-256, the drawn identifiers, the text
-- functions of Python and the remote side are arguments, and so are the validation and persistence of
-- worker outputs and the refresh of a campaign day, services that the model leaves out.
-- The purge is seen from one dispatch: its limit and the items of the other batches, which share the
-- limit, are arguments.
-- Bounds: `augment` recurses on fuel, one unit more than the number of observations; each nested call
-- visits a further evidence hash (Evidence.Select.Fuel).
-- `digits` recurses on fuel, the number itself, since each round drops a digit.
-- Not modelled: zones, the creation of batches, research runs, spatial packages,
-- read views and the HTTP layer, and of the dispatcher the outer loop of run_dispatcher_once.
pub mod Prelude
pub mod Platform
pub mod Errors
pub mod Session
pub mod Enums
pub mod Actor
pub mod Ledger
pub mod Call
pub mod Doubles
pub mod Geospatial
pub mod Incident
pub mod Evidence
pub mod Dispatch
pub mod Matching
pub mod Reviews
pub mod Detection
pub mod Courses
pub mod Examples
