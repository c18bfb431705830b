-- ===== src/Pds/Send.antt =====
-- Where a task that has run for long enough is sent.
