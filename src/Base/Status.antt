-- ===== src/Base/Status.antt =====
-- The `int` results of the C functions: 0 and -1.
pub data Status : Type 0 where
  ok failed : Status
