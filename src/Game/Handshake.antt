-- ===== src/Game/Handshake.antt =====
-- `Handshake` of game/Kcp.h and game/Kcp.cpp. An `int` and an `unsigned int` are their bit patterns.
pub mod Laws
pub mod Accepts
use ey_ps.Prelude.{
  ℕ, ◌^◌, Bool, true, false, ◌&&◌, List, Option, none, some, length, take, ltb, ◌==◌, if◌then◌else◌,
}
use ey_ps.Prelude.Exec.{Exec, Result, ok, err, pure, ◌>>=◌, ◌>>◌}
use ey_ps.Wire.BufferView.{BufferView, read}
use ey_ps.Wire.DynamicBuffer
use ey_ps.Wire.DynamicBuffer.{DynamicBuffer, write}

pub record Handshake : Type 0 where
  pub magic1 : ℕ
  pub conv : ℕ
  pub token : ℕ
  pub data_word : ℕ
  pub magic2 : ℕ
  pub buffer : DynamicBuffer

-- LEN
abbrev pub len : ℕ
len = 20

-- MAGIC_CONNECT and MAGIC_SEND_BACK_CONV
abbrev pub connect1 : ℕ
connect1 = 0xFF

abbrev pub connect2 : ℕ
connect2 = 0xFFFFFFFF

abbrev pub send_back1 : ℕ
send_back1 = 0x145

abbrev pub send_back2 : ℕ
send_back2 = 0x14514545

-- Handshake()
abbrev pub default : Handshake
default = record {
  magic1 = 0;
  conv = 1;
  token = 1;
  data_word = 1234567890;
  magic2 = 0;
  buffer = DynamicBuffer.make 0;
}

-- Handshake(magic, conv, data, token)
unfoldable pub make : ℕ → ℕ → ℕ → ℕ → ℕ → Handshake
make first second conv data_word token = record {
  magic1 = first;
  conv = conv;
  token = token;
  data_word = data_word;
  magic2 = second;
  buffer = DynamicBuffer.make 0;
}

-- The five words, in the order in which they are read.
pub record Words : Type 0 where
  pub magic1 : ℕ
  pub conv : ℕ
  pub token : ℕ
  pub data_word : ℕ
  pub magic2 : ℕ

unfoldable pub read_words : Exec BufferView Words
read_words = do
  magic1 ← read 4 true
  conv ← read 4 true
  token ← read 4 true
  data_word ← read 4 true
  magic2 ← read 4 true
  pure (record {
    magic1 = magic1;
    conv = conv;
    token = token;
    data_word = data_word;
    magic2 = magic2;
  })

-- The test at the end of Decode. Without `verifyMagic` the function ends with no `return`: `none`.
abbrev pub verdict : Bool → Words → Option Bool
verdict true w = some (w.magic1 == connect1 && w.magic2 == connect2)
verdict false w = none

abbrev pub decoded : Bool → Handshake → Result Words → Result (Option Bool × Handshake)
decoded verify h (ok w) = ok (
  verdict verify w,
  record h {
    magic1 = w.magic1;
    conv = w.conv;
    token = w.token;
    data_word = w.data_word;
    magic2 = w.magic2;
  },
)
decoded verify h (err e) = err e

-- Decode. The view is passed by value, so that the caller's offset stays where it is.
unfoldable pub decode : BufferView → Bool → Handshake → Result (Option Bool × Handshake)
decode view verify h =
    if ltb (length view.data_view) len
    then ok (some false, h)
    else decoded verify h (read_words view).0

-- The five writes of Encode.
unfoldable pub write_words : Handshake → Exec DynamicBuffer (Unit {0})
write_words h = do
  write 4 h.magic1 true
  write 4 h.conv true
  write 4 h.token true
  write 4 h.data_word true
  write 4 h.magic2 true

-- Encode: a span of 20 bytes over the buffer that was written to.
unfoldable pub encode : Handshake → List ℕ × Handshake
encode h =
    let buffer = (write_words h h.buffer).1 in
    (take 20 (DynamicBuffer.get_data_ownership buffer), record h { buffer = buffer })
