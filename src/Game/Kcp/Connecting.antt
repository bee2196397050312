-- ===== src/Game/Kcp/Connecting.antt =====
-- The life of a connection in game/Kcp.cpp: from the constructor to the first datagrams.
use ey_ps.Prelude.{
  ℕ, ◌≡◌, ◌∙◌, ◌⊎◌, inl, inr, sym, ap, true, false, Bool-cases, List, [], ◌∷◌, some,
}
use ey_ps.Prelude.Exec.{ok, err, send_failed}
use ey_ps.Prelude.Int.{pos}
use ey_ps.Packet.Head.{PacketHead}
use ey_ps.Wire.DynamicBuffer.Contents
use ey_ps.Game.Handshake.{encode, send_back1, send_back2}
use ey_ps.Game.Handshake.Laws.{wire, encode-wire}
use ey_ps.Game.Ikcp.{Ikcp}
use ey_ps.Game.Kcp.{
  Endpoint, Kcp, make, set_callback, set_context, accept_nonblock, input, answer, new_conv,
  new_token, initialize,
}

-- The answer to the first datagram that is given to an accepted connection.
abbrev pub answer_bytes : ℕ → List ℕ
answer_bytes now = wire send_back1 (new_conv now) (new_token now) 1234567890 send_back2

module _ {ik : Ikcp} {head : PacketHead} where
  -- What the server builds for a request that it accepts.
  abbrev pub fresh : Endpoint → ℕ → Kcp ik head
  fresh ep created = accept_nonblock (set_context ep (set_callback (make ep created)))

  -- What the connection is then, if the socket takes the answer.
  abbrev pub opened : Endpoint → ℕ → ℕ → Kcp ik head
  opened ep created now = initialize (record (fresh ep created) {
    last_packet_time = now;
    conv = new_conv now;
    token = new_token now;
    sent = (ep, (encode (answer now)).0) ∷ [];
  })

  -- It is answered and opened if the socket takes the answer; else Input throws.
  pub input-fresh :
      (ep : Endpoint) (created now : ℕ) (buffer : List ℕ)
      → ((ik.sends ep.address ep.port (answer_bytes now) ≡ true)
          × (input now buffer (fresh ep created) ≡ some (ok (pos 0), opened ep created now)))
        ⊎ ((ik.sends ep.address ep.port (answer_bytes now) ≡ false)
            × ((k : Kcp ik head) × (input now buffer (fresh ep created)
                  ≡ some (err send_failed, k))))
  unfolding input make accept_nonblock initialize
  input-fresh ep created now buffer =
      let written = encode-wire (answer now) (Contents.make-IsValid 0) (Contents.items-make 0) in
      let sent = ap (ik.sends ep.address ep.port) written in
      elim (Bool-cases (ik.sends ep.address ep.port (encode (answer now)).0)) [
        | inl h ↦ inl (sym sent ∙ h, rw h)
        | inr h ↦
            let left : Kcp ik head = record (fresh ep created) {
              last_packet_time = now;
              conv = new_conv now;
              token = new_token now;
            } in
            inr (sym sent ∙ h, (left, rw h))
      ]
