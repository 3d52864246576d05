-- ===== src/Persistence/Progress/Passes.antt =====
-- With no fault, a pass of the scheduler over the Postgres backend gets done.
