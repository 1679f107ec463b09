-- ===== src/Node/Proposing/Tests.antt =====
-- A round of the sample node.
