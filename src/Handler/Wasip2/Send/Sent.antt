-- ===== src/Handler/Wasip2/Send/Sent.antt =====
-- Sending a response ends, and what it has done to the host's resources by then.
