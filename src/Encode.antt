-- ===== src/Encode.antt =====
-- The encoder of values without objects: phpser.c, encode_ctx and phpser_encode_zval_ex.
pub mod Memory
pub mod Probe
pub mod Ctx
pub mod Strings
pub mod Runs
pub mod Schema
pub mod Column
pub mod Table
pub mod Array
pub mod Value
pub mod Frame
pub mod Lists
pub mod Tests
