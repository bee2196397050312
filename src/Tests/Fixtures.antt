-- ===== src/Tests/Fixtures.antt =====
-- Concrete instances of the interfaces: a protocol that hands messages over whole, a head of two
-- bytes, and packet ids and messages to go with them.
use ey_ps.Prelude.{true, ℕ, suc, ◌≡◌, ◌⊎◌, refl, List, [], ◌∷◌, ◌++◌, length, arith, inl, inr}
use ey_ps.Prelude.Int.{ℤ, pos, negsuc}
use ey_ps.Packet.Head.{PacketHead, IsCodec}
use ey_ps.Game.Ikcp.{Ikcp}
use ey_ps.Game.Kcp.{Endpoint, Kcp, make}
use ey_ps.Game.Kcp.Receiving.{RecvContract}
use ey_ps.Game.Messages.{PacketIds, IsDistinct, Messages}
use ey_ps.Wire.BufferView
use ey_ps.Packet.{build}
use ey_ps.Game.Handlers.Sending.{AreSmall}
use ey_ps.Game.Handlers.{Environment}

-- What came in, and what is to go out.
abbrev Boxes : Type 0
Boxes = List (List ℕ) × List (List ℕ)

abbrev head_size : List (List ℕ) → ℤ
head_size [] = negsuc 0
head_size (m ∷ ms) = pos (length m)

abbrev first : List (List ℕ) → List ℕ
first [] = []
first (m ∷ ms) = m

abbrev others : List (List ℕ) → List (List ℕ)
others [] = []
others (m ∷ ms) = ms

abbrev pub whole_ik : Ikcp
whole_ik = record {
  Cb = Boxes;
  create = λ conv token. ([], []);
  nodelay = λ a b c d cb. cb;
  wndsize = λ a b cb. cb;
  setoutput = λ cb. cb;
  input = λ bytes cb. (pos 0, (cb.0 ++ (bytes ∷ []), cb.1));
  peeksize = λ cb. head_size cb.0;
  recv = λ size cb. (head_size cb.0, first cb.0, (others cb.0, cb.1));
  send = λ bytes cb. (pos 0, (cb.0, cb.1 ++ (bytes ∷ [])));
  flush = λ cb. (cb.1, (cb.0, []));
  update = λ current cb. (cb.1, (cb.0, []));
  sends = λ address port datagram. true;
}

head_size-peeked :
    (box : List (List ℕ)) → ((n : ℕ) × (head_size box ≡ pos n)) ⊎ (head_size box ≡ negsuc 0)
head_size-peeked [] = inr refl
head_size-peeked (m ∷ ms) = inl (length m, refl)

length-first :
    (box : List (List ℕ)) (n : ℕ) → head_size box ≡ pos (suc n) → length (first box) ≡ suc n
length-first [] n e = let bad : ⊥ = cc in absurd bad
length-first (m ∷ ms) n e = cc

pub whole_ik-RecvContract : RecvContract whole_ik
whole_ik-RecvContract = record {
  peeked = λ cb. head_size-peeked cb.0;
  received = λ cb n e. (e, length-first cb.0 n e);
}

abbrev parse_pair : List ℕ → ℕ × ℕ
parse_pair (a ∷ b ∷ []) = (a, b)
parse_pair _ = (0, 0)

abbrev pub pair_head : PacketHead
pair_head = record {
  Message = ℕ × ℕ;
  default = (0, 0);
  set_client_sequence_id = λ s m. (s, m.1);
  client_sequence_id = λ m. m.0;
  set_timestamp = λ t m. (m.0, t);
  serialize = λ m. m.0 ∷ m.1 ∷ [];
  parse = parse_pair;
}

pub pair_head-IsCodec : IsCodec pair_head
pair_head-IsCodec = record { parse-serialize = λ m. refl }

abbrev pub some_ids : PacketIds
some_ids = record {
  ping_req = 7;
  ping_rsp = 8;
  get_player_token_req = 172;
  get_player_token_rsp = 198;
  player_login_req = 112;
  set_player_born_data_req = 105;
  open_state_update_notify = 127;
  store_weight_limit_notify = 698;
  player_store_notify = 672;
  avatar_data_notify = 1633;
  player_enter_scene_notify = 272;
}

pub some_ids-IsDistinct : IsDistinct some_ids
some_ids-IsDistinct = record {
  ping_token = omega arith;
  ping_login = omega arith;
  ping_born = omega arith;
  token_login = omega arith;
  token_born = omega arith;
  login_born = omega arith;
}

abbrev pub some_messages : Messages
some_messages = record {
  parse_ping_req = length;
  parse_token_req = λ bytes. record {
    uid = length bytes;
    account_uid = bytes;
    account_token = bytes;
    account_type = 1;
  };
  ping_rsp = λ n. n ∷ [];
  token_rsp = λ r. r.uid ∷ r.account_type ∷ [];
  open_state_update_notify = λ states. 1 ∷ [];
  store_weight_limit_notify = λ limits. 2 ∷ [];
  player_store_notify = λ s. 3 ∷ [];
  avatar_data_notify = λ bytes. 4 ∷ [];
  player_enter_scene_notify = λ scene. 5 ∷ [];
  login_rsp = λ r. 6 ∷ [];
  base64_decode = λ text n. text;
  address_text = λ address. [];
}

abbrev pub key3 : List ℕ
key3 = 1 ∷ 2 ∷ 3 ∷ []

abbrev pub some_environment : Environment
some_environment = record {
  ids = some_ids;
  messages = some_messages;
  dispatch_key = key3;
  secret_key_text = [];
  now = 9;
}

pub some_environment-AreSmall : AreSmall some_environment pair_head
unfolding build ey_ps.Packet.write_frame ey_ps.Prelude.Exec.◌>>=◌ BufferView.write
    BufferView.write_array ey_ps.Wire.Endian.written ey_ps.Prelude.Bytes.to_bytes
some_environment-AreSmall = record {
  ping_rsp = λ time sequence. omega arith;
  token_rsp = λ rsp. omega arith;
  open_states = omega arith;
  weight_limit = omega arith;
  store = omega arith;
  avatar = omega arith;
  scene = omega arith;
  login_rsp = omega arith;
}

abbrev pub home : Endpoint
home = record { address = 0x7F000001; port = 5000 }

unfoldable pub client : Kcp whole_ik pair_head
unfolding make
client = make home 5
