-- ===== src/Utils.antt =====
-- source/utils: the helpers on bits and on data types that all the decoders share.
pub mod Binary
pub mod Datatype
mod Examples
