-- ===== src/Packet/Head.antt =====
-- The interface of the generated class `PacketHead` (resources/proto, not in the repository), as
-- the frame uses it.
use ey_ps.Prelude.{ℕ, ◌≡◌, List}

pub record PacketHead : Type 1 where
  pub Message : Type 0
  pub default : Message
  pub set_client_sequence_id : ℕ → Message → Message
  pub client_sequence_id : Message → ℕ
  pub set_timestamp : ℕ → Message → Message
  -- SerializeAsString
  pub serialize : Message → List ℕ
  -- The message after ParseFromArray; the code does not look at its result.
  pub parse : List ℕ → Message

-- What protobuf documents of these calls.
pub record IsCodec (head : PacketHead) : Type 0 where
  pub parse-serialize : (m : head.Message) → head.parse (head.serialize m) ≡ m
