-- ===== src/Decode.antt =====
-- phpser.c, the decoder: header, keys, scalars, typed runs, associative arrays, tables, row sets,
-- references and shared arrays. Objects are not modelled: an object tag gives `beyond`.
pub mod Ctx
pub mod Scalar
pub mod Runs
pub mod Assoc
pub mod Schema
pub mod Table
pub mod Array
pub mod Frame
pub mod Spends
pub mod Mass
pub mod Bounded
pub mod Equal
pub mod Assign
pub mod Tests
