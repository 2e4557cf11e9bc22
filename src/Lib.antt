-- ===== src/Lib.antt =====
-- granttap-relay carries encrypted frames between a computer (role "machine") and its controllers
-- (role "phone") in rooms, and reads nothing of their content. It runs as a Cloudflare Worker with a
-- Durable Object for each room and as a Node server with SQLite; both share the policies in src/relay.
-- A frame from a socket passes the frame window (Relay/Policy), its receipt is counted (Sockets/Ingress),
-- acknowledgements of what the socket was sent are recognised (Sockets/Allowances), its envelope is
-- validated (Relay/Validation), it is kept in the mailbox of the other role by the retention rules
-- (Relay/Mailbox over Relay/Submissions), and a push hint may be sent (Wakes). A socket that is closed
-- for a policy makes its identity wait (Relay/CoolDown). Room composes these for a Worker. Scheduled task jobs have a queue of their own
-- (Jobs), and the live updates of a task one of theirs (Activities).
--
-- Which file models which part:
--   Prelude                the lists, decimal tests and texts that the others share; a text is its list
--                          of UTF-16 code units, as in JavaScript
--   Relay/Json             the values of JSON.parse and the questions the code asks of them
--   Relay/Submissions      src/relay/submissionReceipts.js: isDurableSubmission, retainSubmission
--   Relay/Mailbox          src/relay/room.js: GrantTapRoom.queue, acknowledge and flushTo, with the
--                          storage of both mailboxes as a record
--   Relay/Validation       src/relay/relayValidation.js, and validRetainedState of
--                          src/retainedState/policy.js
--   Relay/Routing          src/relay/recipientRouting.js
--   Relay/Policy           src/relay/connectionPolicy.js
--   Relay/Closing          applyPolicyClose and refuseCoolingFrame of that file, and upgradeRefusal of
--                          src/node/upgrade-gate.js
--   Relay/CoolDown         src/relay/coolDown.js: the registry as a list of entries in the order of the
--                          Map that the source keeps
--   Relay/Support          constantTimeEqual of src/relay/relaySupport.js
--   Relay/Log              src/relay/relayLog.js
--   Relay/Routes           src/relay/requestRouter.js and src/relay/legacyProxy.js
--   Sockets/Allowances     src/responseAcknowledgements/index.js
--   Sockets/Ingress        src/ingressFlow/index.js
--   Sockets/Presence       updatePresence of src/roomPresence/index.js
--   Sockets/Delivery       src/node/socketDelivery/index.js
--   Node/Heartbeat         src/node/heartbeat.js
--   Node/Mailbox           src/node/store.js: RelayStore.queue, enqueue and acknowledge
--   Node/Admission         src/node/managed-admission.js, src/node/managed-connection.js and
--                          src/node/socket-policy.js
--   Rendezvous/Pairing     src/relay/pairingMailbox.js, and validBase64 of src/relay/relayValidation.js
--   Rendezvous/Endpoints   src/relay/endpointDirectory.js and src/relay/endpointRetention.js
--   Retained               src/retainedState/policy.js: retainState, evictionGroups and replayState
--   Wakes                  src/relay/wakeDelivery.js: request, sendDue and nextAt on the stored state
--   Room                   src/relay/room.js: webSocketMessage and targetsFor, src/relay/roomSockets.js
--                          and src/roomPresence/worker.js, as one step of the room
--   Room/Requests          src/relay/room.js: fetch, acceptWebSocket, the room's credential and its push
--                          tokens
--   Jobs/Policy            src/taskDispatch/policy.js: the transitions of one job
--   Jobs/Store             normalizeJob of that file and src/taskDispatch/node.js: the jobs of a room
--   Jobs/Due               due and listActive of src/taskDispatch/node.js
--   Jobs/Writers           src/taskDispatch/writers/index.js, and configurationCapacity of
--                          src/taskDispatch/configurations/index.js
--   Jobs/Routes            src/taskDispatch/index.js, and the pattern of a credential of
--                          src/taskDispatch/writers/index.js
--   Jobs/Ciphertext        src/taskDispatch/worker-ciphertext.js
--   Jobs/Worker            src/taskDispatch/worker.js: the jobs of a Worker's room
--   Activities             src/taskActivities/policy.js
--   Activities/Registries  src/taskActivities/registry: worker.js and sqlite.js
--   Activities/Delivery    src/taskActivities/delivery/endpoint.js
--   Tests                  runs at concrete inputs
-- Children of these modules hold the proofs, named for what they prove.
--
-- Times are natural numbers of milliseconds, and every operation takes the time as an argument. The
-- parameters stand for code of the platform: `parse` for JSON.parse, `sha256` for the digest as a text,
-- `json_bytes` for the bytes of JSON.stringify, `canonical_text` for the text of a normalised job body,
-- `matches` for the test whether a stored frame is for a recipient, `capacity` for the number of frames
-- that a socket takes before its send throws, `round_trips` for the test that a text survives
-- btoa(atob(...)), `number` for the conversion of a setting, `ping_throws` for the sockets whose ping
-- throws, and the answer of the push service. The one thing that is assumed of a parameter is said at
-- the theorem that does.
--
-- One function runs on fuel: `evict`, the loop of retainSubmission, with one more than the rows of the
-- queue, since each round takes one row away.
--
-- The rows of a room's jobs are those of one room of the table `task_jobs`, in which an id occurs once;
-- a transaction is one function. Not modelled are network and disk access, cryptography and
-- metrics, and so far the handlers of Node's sockets, the stores of retained states, the client of the
-- push service and the client of the host watch.
pub mod Prelude
pub mod Relay
pub mod Sockets
pub mod Retained
pub mod Wakes
pub mod Room
pub mod Jobs
pub mod Activities
pub mod Rendezvous
pub mod Node
pub mod Tests
