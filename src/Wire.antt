-- ===== src/Wire.antt =====
-- util/util.h, util/bufferView.*, util/dynamicBuffer.*: reading and writing byte buffers.
pub mod Endian
pub mod Vector
pub mod Appending
pub mod DynamicBuffer
pub mod BufferView
pub mod Strings
