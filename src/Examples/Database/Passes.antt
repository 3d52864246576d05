-- ===== src/Examples/Database/Passes.antt =====
-- A pass of the scheduler over the Postgres backend that takes a lease back.
