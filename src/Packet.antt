-- ===== src/Packet.antt =====
-- util/BasePacket.h and util/BasePacket.cpp: the frame of a game packet. `PacketHead` is a message
-- that the protobuf compiler generates, so the class is a parameter.
pub mod Head
pub mod Frame
pub mod RoundTrip
pub mod Parsing
use ey_ps.Prelude.{ℕ, ◌%◌, ◌^◌, Bool, true, List, [], Option, none, some, length}
use ey_ps.Prelude.Exec.{Exec, Result, ok, err, pure, ◌>>=◌, ◌>>◌}
use ey_ps.Wire.BufferView
use ey_ps.Wire.BufferView.{BufferView, read, read_view, write, write_array}
use Head.{PacketHead}

-- A field that a constructor leaves uninitialised is `none`.
pub record BasePacket (head : PacketHead) : Type 0 where
  pub view : BufferView
  pub magic_start : Option ℕ
  pub packet_id : ℕ
  pub metadata_size : ℕ
  pub data_size : ℕ
  pub metadata : head.Message
  pub data_bytes : List ℕ
  pub magic_end : Option ℕ

-- What the first constructor reads, in its order.
pub record Fields : Type 0 where
  pub magic_start : ℕ
  pub packet_id : ℕ
  pub metadata_size : ℕ
  pub data_size : ℕ
  pub metadata_bytes : List ℕ
  pub data_bytes : List ℕ
  pub magic_end : ℕ

unfoldable pub read_fields : Exec BufferView Fields
read_fields = do
  magic_start ← read 2 true
  packet_id ← read 2 true
  metadata_size ← read 2 true
  data_size ← read 4 true
  metadata_bytes ← read_view metadata_size
  data_bytes ← read_view data_size
  magic_end ← read 2 true
  pure (record {
    magic_start = magic_start;
    packet_id = packet_id;
    metadata_size = metadata_size;
    data_size = data_size;
    metadata_bytes = metadata_bytes;
    data_bytes = data_bytes;
    magic_end = magic_end;
  })

-- The writes of the two building constructors, for serialized metadata.
unfoldable pub write_frame : ℕ → List ℕ → List ℕ → Exec BufferView (Unit {0})
write_frame packet_id metadata_bytes data_bytes = do
  write 2 0x4567 true
  write 2 (packet_id % 2 ^ 16) true
  write 2 (length metadata_bytes % 2 ^ 16) true
  write 4 (length data_bytes % 2 ^ 32) true
  write_array metadata_bytes
  write_array data_bytes
  write 2 0x89ab true

module _ (head : PacketHead) where
  abbrev pub from_fields : Result Fields → BufferView → Result (BasePacket head)
  from_fields (ok f) view = ok (record {
    view = view;
    magic_start = some f.magic_start;
    packet_id = f.packet_id;
    metadata_size = f.metadata_size;
    data_size = f.data_size;
    metadata = head.parse f.metadata_bytes;
    data_bytes = f.data_bytes;
    magic_end = some f.magic_end;
  })
  from_fields (err e) view = err e

  -- BasePacket(data): a packet that was received. An exception leaves no object behind.
  unfoldable pub from_bytes : List ℕ → Result (BasePacket head)
  from_bytes bytes =
      from_fields (read_fields (BufferView.make bytes)).0 (read_fields (BufferView.make bytes)).1

  -- The metadata of the building constructors; `now` is `time(0)`.
  abbrev pub stamped : ℕ → ℕ → head.Message
  stamped client_sequence now =
      head.set_timestamp now (head.set_client_sequence_id client_sequence head.default)

  -- BasePacket(data, packet_id, client_sequence), for a span and for a string: a packet to be sent.
  -- `packet_id` is the bit pattern of the `short`.
  unfoldable pub build : List ℕ → ℕ → ℕ → ℕ → BasePacket head
  build bytes packet_id client_sequence now = record {
    view =
        (write_frame packet_id (head.serialize (stamped client_sequence now)) bytes
          (BufferView.make bytes)).1;
    magic_start = none;
    packet_id = 0;
    metadata_size = 0;
    data_size = 0;
    metadata = stamped client_sequence now;
    data_bytes = [];
    magic_end = none;
  }
