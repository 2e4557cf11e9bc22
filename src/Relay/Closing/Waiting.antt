-- ===== src/Relay/Closing/Waiting.antt =====
-- src/relay/connectionPolicy.js and src/node/upgrade-gate.js: who was closed for a policy waits.
