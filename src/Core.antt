-- ===== src/Core.antt =====
-- crates/mgmt-core/src/lib.rs: the errors that the crates share, without their messages.
pub data Error : Type 0 where
  not_found invalid parse_error conflict io other : Error
