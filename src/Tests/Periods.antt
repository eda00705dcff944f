-- ===== src/Tests/Periods.antt =====
-- A run of the theorem on periods of time.
