-- ===== src/Testbed/Examples.antt =====
-- Runs of the testbed's methods on concrete services.
mod Boot
mod Loss
