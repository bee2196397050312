-- ===== src/Game/Server/Life/Silence.antt =====
-- When a connection of game/Kcp.cpp ends, and what is left of it in g_Clients.
use ey_ps.Prelude.{Option}
use ey_ps.Game.Ikcp.{Ikcp}
use ey_ps.Game.Kcp.{Kcp}
use ey_ps.Game.Server.Life.Heard.{Heard}
use mathlib.Core.Option
