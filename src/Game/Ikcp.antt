-- ===== src/Game/Ikcp.antt =====
-- The calls of the KCP library (external/kcp, a copy of another project) that game/Kcp.cpp makes.
-- A control block is opaque. Where the library calls the output callback, the datagrams that it
-- hands over are returned. With them goes the UDP socket, as far as its calls fail.
use ey_ps.Prelude.{ℕ, Bool, List}
use ey_ps.Prelude.Int.{ℤ}

pub record Ikcp : Type 1 where
  pub Cb : Type 0
  -- ikcp_create(conv, token, user)
  pub create : ℕ → ℕ → Cb
  pub nodelay : ℕ → ℕ → ℕ → ℕ → Cb → Cb
  pub wndsize : ℕ → ℕ → Cb → Cb
  pub setoutput : Cb → Cb
  pub input : List ℕ → Cb → ℤ × Cb
  pub peeksize : Cb → ℤ
  -- The result, and the bytes that were stored from the start of the buffer on.
  pub recv : ℤ → Cb → ℤ × List ℕ × Cb
  pub send : List ℕ → Cb → ℤ × Cb
  pub flush : Cb → List (List ℕ) × Cb
  pub update : ℕ → Cb → List (List ℕ) × Cb
  -- Whether send_to of the socket returns, for an address, a port and a datagram; else it throws.
  pub sends : ℕ → ℕ → List ℕ → Bool
