-- ===== src/Cbor.antt =====
-- lib/Cbor.h and lib/Cbor.cpp: the binary format of the messages, its output and input buffers,
-- the writer and the resumable reader.
pub mod Output
pub mod Writer
pub mod Input
pub mod Reader
