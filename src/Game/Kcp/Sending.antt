-- ===== src/Game/Kcp/Sending.antt =====
-- What sending changes in a connection of game/Kcp.cpp: the control block and what has gone out.
use ey_ps.Prelude.{
  ℕ, ◌≡◌, refl, ap, subst, ◌∙◌, Bool, true, false, List, [], ◌∷◌, ◌++◌, map, Option, none, some,
  if◌then◌else◌,
}
use ey_ps.Prelude.Int.{ℤ}
use ey_ps.Packet.Head.{PacketHead}
use ey_ps.Packet.{BasePacket}
use ey_ps.Game.Ikcp.{Ikcp}
use ey_ps.Game.Kcp.{
  Endpoint, Kcp, all_sent, udp_output, output_to, send_over, send_bytes, send_encrypted,
  send_packet,
}
use ey_ps.Prelude.Options.{of_some, none-ne-some, map-eq-some}

module _ {ik : Ikcp} {head : PacketHead} where
  -- `k'` is `k` but for the control block and the datagrams.
  abbrev pub SameBut : Kcp ik head → Kcp ik head → Type 0
  SameBut k k' = k' ≡ record k { kcp = k'.kcp; sent = k'.sent }

  -- The datagrams that go out change nothing else.
  pub output_to_sent :
      (c : Option Endpoint) (ds : List (List ℕ)) (k k' : Kcp ik head)
      → output_to c ds k ≡ some k'
      → (sent : List (Endpoint × List ℕ)) × (record k { sent = sent } ≡ k')
  unfolding output_to
  output_to_sent none ds k k' e = (k.sent, of_some e)
  output_to_sent (some ep) ds k k' e = go (all_sent ik ep ds) e
    where
      go :
          (b : Bool)
          → (if b then some (record k { sent = k.sent ++ map (λ d. (ep, d)) ds }) else none)
            ≡ some k'
          → (sent : List (Endpoint × List ℕ)) × (record k { sent = sent } ≡ k')
      go true p = (_, of_some p)
      go false p = absurd (none-ne-some p)

  send_over-SameBut :
      (c : Option ik.Cb) (buffer : List ℕ) (k : Kcp ik head) {r : ℤ × Kcp ik head}
      → send_over c buffer k ≡ some r
      → SameBut k r.1
  unfolding send_over udp_output
  send_over-SameBut none buffer k e = absurd (none-ne-some e)
  send_over-SameBut (some cb) buffer k {r} e =
      let (k1, e1, f1) = map-eq-some {A = Kcp ik head} {B = ℤ × Kcp ik head} _ _ e in
      let (sent, changed) = output_to_sent k.ctx _ _ k1 e1 in
      subst (λ (x : ℤ × Kcp ik head). SameBut k x.1) f1 (subst (SameBut k) changed refl)

  send_encrypted-SameBut :
      (c : Option (List ℕ)) (k : Kcp ik head) {r : ℤ × Kcp ik head}
      → send_encrypted c k ≡ some r
      → SameBut k r.1
  unfolding send_bytes
  send_encrypted-SameBut none k e = absurd (none-ne-some e)
  send_encrypted-SameBut (some buffer) k e = send_over-SameBut k.kcp buffer k e

  -- Sending a packet changes nothing else.
  pub send_packet-SameBut :
      (key : List ℕ) (packet : BasePacket head) (use_key : Bool) (k : Kcp ik head)
      {r : ℤ × Kcp ik head}
      → send_packet key packet use_key k ≡ some r
      → SameBut k r.1
  unfolding send_packet
  send_packet-SameBut key packet use_key k e = send_encrypted-SameBut _ k e

  pub SameBut-trans : (k k' k'' : Kcp ik head) → SameBut k k' → SameBut k' k'' → SameBut k k''
  SameBut-trans k k' k'' p q =
      q ∙ ap {A = Kcp ik head} (λ x. record x { kcp = k''.kcp; sent = k''.sent }) p

-- send_to of the socket never throws.
abbrev pub NeverFails : Ikcp → Type 0
NeverFails ik = (address port : ℕ) (datagram : List ℕ) → ik.sends address port datagram ≡ true

all_sent-true :
    (ik : Ikcp) → NeverFails ik → (ep : Endpoint) (ds : List (List ℕ)) → all_sent ik ep ds ≡ true
unfolding all_sent
all_sent-true ik sends ep [] = refl
all_sent-true ik sends ep (d ∷ ds) = rw (sends ep.address ep.port d, all_sent-true ik sends ep ds)

module _ {ik : Ikcp} {head : PacketHead} (sends : NeverFails ik) where
  pub output_to_total :
      (c : Option Endpoint) (ds : List (List ℕ)) (k : Kcp ik head)
      → (k' : Kcp ik head) × (output_to c ds k ≡ some k') × (k'.kcp ≡ k.kcp)
  unfolding output_to
  output_to_total none ds k = (k, refl, refl)
  output_to_total (some ep) ds k =
      let k' : Kcp ik head = record k { sent = k.sent ++ map (λ d. (ep, d)) ds } in
      (k', ap (λ b. if b then some k' else none) (all_sent-true ik sends ep ds), refl)
