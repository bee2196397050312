-- ===== src/Game/Queue/Gate.antt =====
-- Which packets the session's gate lets through.
use ey_ps.Prelude.{ℕ, some, ◌≡◌, ◌≢◌, ◌⊎◌, ◌↔◌, refl, true, arith}
use ey_ps.Game.Kcp.{SessionState}
use ey_ps.Game.Handlers.{Handler, handler_of}
use ey_ps.Game.Messages.{PacketIds, IsDistinct}
use ey_ps.Game.Queue.{passes, same_session}

same_session_iff : (s t : SessionState) → (same_session s t ≡ true) ↔ (s ≡ t)
same_session_iff s t = ground arith

-- A packet passes exactly if it is a ping, the request that the session waits for, or, in an active
-- session, any packet that is none of the four requests. The ids of the four requests have to differ.
pub passes_exact :
    (ids : PacketIds) (session : SessionState) (id : ℕ)
    → IsDistinct ids
    → (passes ids session id ≡ true) ↔ (
        (id ≡ ids.ping_req)
        ⊎ ((id ≡ ids.get_player_token_req) × (session ≡ SessionState.waiting_for_token))
        ⊎ ((id ≡ ids.player_login_req) × (session ≡ SessionState.waiting_for_login))
        ⊎ ((id ≡ ids.set_player_born_data_req) × (session ≡ SessionState.picking_character))
        ⊎ ((id ≢ ids.ping_req)
            × (id ≢ ids.get_player_token_req)
            × (id ≢ ids.player_login_req)
            × (id ≢ ids.set_player_born_data_req)
            × (session ≡ SessionState.active)))
unfolding passes
passes_exact ids SessionState.inactive id d = (ground arith, ground arith)
passes_exact ids SessionState.waiting_for_token id d = (ground arith, ground arith)
passes_exact ids SessionState.waiting_for_login id d = (ground arith, ground arith)
passes_exact ids SessionState.picking_character id d = (ground arith, ground arith)
passes_exact ids SessionState.active id d = (ground arith, ground arith)

-- The packet whose handler a login is comes only to a session that waits for the login.
pub login_gate :
    (ids : PacketIds) (session : SessionState) (id : ℕ)
    → handler_of ids id ≡ some Handler.player_login
    → passes ids session id ≡ true
    → session ≡ SessionState.waiting_for_login
unfolding handler_of passes
login_gate ids SessionState.inactive id h p = absurd (ground arith)
login_gate ids SessionState.waiting_for_token id h p = absurd (ground arith)
login_gate ids SessionState.waiting_for_login id h p = refl
login_gate ids SessionState.picking_character id h p = absurd (ground arith)
login_gate ids SessionState.active id h p = absurd (ground arith)
