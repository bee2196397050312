-- ===== src/Game/Kcp/Receiving.antt =====
-- Receiving and sending over an established connection of game/Kcp.cpp.
use ey_ps.Prelude.{
  ℕ, suc, ◌≤◌, ◌<◌, ◌≡◌, ◌⊎◌, refl, inl, inr, ap, ◌∙◌, [], none, some, arith, length, if◌then◌else◌,
  take, List, Option, sym, ltb, Bool-cases, take-length, lt→ltb, ge→ltb_false,
}
use ey_ps.Prelude.Int.{ℤ, pos, negsuc, is_size, is_positive, magnitude}
use ey_ps.Prelude.Options.{of_some, none-ne-some}
use native.Mathlib.Decide.{dec_lt}
use ey_ps.Packet.Head.{PacketHead}
use ey_ps.Game.Ikcp.{Ikcp}
use ey_ps.Game.Kcp.{Kcp, recv, recv_from, recv_into, recv_buf_size}

-- What the KCP library documents of `ikcp_peeksize` and `ikcp_recv`: the size of the next message
-- or -1, and a call with room for the message stores exactly that many bytes and returns the size.
pub record RecvContract (ik : Ikcp) : Type 0 where
  pub peeked : (cb : ik.Cb) → ((n : ℕ) × (ik.peeksize cb ≡ pos n)) ⊎ (ik.peeksize cb ≡ negsuc 0)
  pub received :
      (cb : ik.Cb) (n : ℕ)
      → ik.peeksize cb ≡ pos (suc n)
      → ((ik.recv (pos (suc n)) cb).0 ≡ pos (suc n)) × (length (ik.recv (pos (suc n)) cb).1 ≡ suc n)

module _ {ik : Ikcp} {head : PacketHead} (contract : RecvContract ik) where
  recv-peeked :
      (k : Kcp ik head) (cb : ik.Cb) (n : ℕ)
      → k.kcp ≡ some cb
      → ik.peeksize cb ≡ pos (suc n)
      → recv k ≡ recv_into (pos (suc n)) cb k
  unfolding recv
  recv-peeked k cb n hk hp =
      ap (λ c. recv_from c k) hk ∙ ap (λ z. if is_size z then recv_into z cb k else some ([], k)) hp

  recv_into-overruns :
      (k : Kcp ik head) (cb : ik.Cb) (n : ℕ)
      → length (ik.recv (pos (suc n)) cb).1 ≡ suc n
      → recv_buf_size < suc n
      → recv_into (pos (suc n)) cb k ≡ none
  unfolding recv_into
  recv_into-overruns k cb n len big =
      let e : recv_buf_size < length (ik.recv (pos (suc n)) cb).1 = omega arith in rw (lt→ltb _ _ e)

  recv_into-fits :
      (k : Kcp ik head) (cb : ik.Cb) (n : ℕ)
      → (ik.recv (pos (suc n)) cb).0 ≡ pos (suc n)
      → length (ik.recv (pos (suc n)) cb).1 ≡ suc n
      → suc n ≤ recv_buf_size
      → recv_into (pos (suc n)) cb k
        ≡ some ((ik.recv (pos (suc n)) cb).1, record k { kcp = some (ik.recv (pos (suc n)) cb).2 })
  unfolding recv_into
  recv_into-fits k cb n res len fits =
      let e : length (ik.recv (pos (suc n)) cb).1 ≤ recv_buf_size = omega arith in
      rw (ge→ltb_false _ _ e, res, take-length (suc n) _ len)

  -- A waiting message of more than 65534 bytes is stored past the end of the receive buffer; a
  -- shorter one, which is not empty, is returned whole. The library's calls have to return the
  -- sizes that it documents.
  pub recv_exact :
      (k : Kcp ik head) (cb : ik.Cb) (n : ℕ)
      → k.kcp ≡ some cb
      → ik.peeksize cb ≡ pos (suc n)
      → ((recv_buf_size < suc n) × (recv k ≡ none))
        ⊎ ((suc n ≤ recv_buf_size)
            × (recv k
                ≡ some (
                  (ik.recv (pos (suc n)) cb).1,
                  record k { kcp = some (ik.recv (pos (suc n)) cb).2 },
                )))
  recv_exact k cb n hk hp =
      let (res, len) = contract.received cb n hp in
      elim (dec_lt recv_buf_size (suc n)) [
        | yes big ↦ inl (big, recv-peeked k cb n hk hp ∙ recv_into-overruns k cb n len big)
        | no fits ↦
            (let le : suc n ≤ recv_buf_size = omega arith in
              inr (le, recv-peeked k cb n hk hp ∙ recv_into-fits k cb n res len le))
      ]

module _ {ik : Ikcp} {head : PacketHead} where
  recv_into-block :
      (sz : ℤ) (cb : ik.Cb) (k : Kcp ik head) (bytes : List ℕ) (k' : Kcp ik head)
      → recv_into sz cb k ≡ some (bytes, k')
      → (cb' : ik.Cb) × (k' ≡ record k { kcp = some cb' })
  unfolding recv_into
  recv_into-block sz cb k bytes k' e =
      elim (Bool-cases (ltb recv_buf_size (length (ik.recv sz cb).1))) [
        | inl over ↦ absurd (none-ne-some (sym (rw over) ∙ e))
        | inr fits ↦ elim (Bool-cases (is_positive (ik.recv sz cb).0)) [
          | inl p ↦
              let (result, got, cb') = ik.recv sz cb in
              let read : some (take (magnitude result) got, record k { kcp = some cb' })
                  ≡ some (bytes, k') =
                sym (rw (fits, p)) ∙ e in
              (cb', sym (ap {A = List ℕ × Kcp ik head} (λ x. x.1) (of_some read)))
          | inr p ↦
              let (result, got, cb') = ik.recv sz cb in
              let nothing : some ([], record k { kcp = some cb' }) ≡ some (bytes, k') =
                sym (rw (fits, p)) ∙ e in
              (cb', sym (ap {A = List ℕ × Kcp ik head} (λ x. x.1) (of_some nothing)))
        ]
      ]

  recv_from-block :
      (c : Option ik.Cb) (k : Kcp ik head) (bytes : List ℕ) (k' : Kcp ik head)
      → k.kcp ≡ c
      → recv_from c k ≡ some (bytes, k')
      → (cb' : ik.Cb) × (k' ≡ record k { kcp = some cb' })
  unfolding recv_from
  recv_from-block none k bytes k' q e = absurd (none-ne-some e)
  recv_from-block (some cb) k bytes k' q e = elim (Bool-cases (is_size (ik.peeksize cb))) [
    | inl p ↦ recv_into-block (ik.peeksize cb) cb k bytes k' (sym (rw p) ∙ e)
    | inr p ↦
        let left : some ([], k) ≡ some (bytes, k') = sym (rw p) ∙ e in
        (
          cb,
          sym (ap {A = List ℕ × Kcp ik head} (λ x. x.1) (of_some left))
              ∙ ap {A = Option ik.Cb} (λ c. record k { kcp = c }) q,
        )
  ]

  -- Receiving changes the control block and nothing else of a connection.
  pub recv-block :
      (k : Kcp ik head) (bytes : List ℕ) (k' : Kcp ik head)
      → recv k ≡ some (bytes, k')
      → (cb' : ik.Cb) × (k' ≡ record k { kcp = some cb' })
  unfolding recv
  recv-block k bytes k' e = recv_from-block k.kcp k bytes k' refl e
