-- ===== src/Tests/Packets.antt =====
-- Runs of the packets' frame.
use ey_ps.Prelude.{ℕ, ◌≡◌, sym, ap, ◌∙◌, List, [], ◌∷◌, ◌++◌, arith}
use ey_ps.Prelude.Exec.{ok}
use ey_ps.Wire.BufferView
use ey_ps.Packet.{BasePacket, build, stamped, from_bytes}
use ey_ps.Packet.Frame.{frame, length-layout, build-frame, frame-IsByte}
use ey_ps.Packet.RoundTrip.{Shows, from_bytes-build}
use ey_ps.Packet.Parsing.{Holds, from_bytes-Holds}
use ey_ps.Tests.Fixtures.{pair_head, pair_head-IsCodec}
use mathlib.Core.List.{append-nil}

abbrev payload : List ℕ
payload = 1 ∷ 2 ∷ []

abbrev frame7 : List ℕ
frame7 = frame 7 (3 ∷ 9 ∷ []) payload

from_bytes-build_example :
    (p : BasePacket pair_head) × (from_bytes pair_head
        (BufferView.get_data_ownership (build pair_head payload 7 3 9).view ++ (0 ∷ []))
      ≡ ok p)
    × Shows p 7 (stamped pair_head 3 9) payload
from_bytes-build_example =
    from_bytes-build pair_head pair_head-IsCodec payload 7 3 9 (0 ∷ []) (omega arith) (omega arith)
      (omega arith) (omega arith)

parsed : (p : BasePacket pair_head) × (from_bytes pair_head frame7 ≡ ok p)
parsed =
    let (p, e, shows) =
      from_bytes-build pair_head pair_head-IsCodec payload 7 3 9 [] (omega arith) (omega arith)
        (omega arith) (omega arith) in
    let built = build-frame pair_head payload 7 3 9 (omega arith) (omega arith) (omega arith) in
    (p, sym (ap (from_bytes pair_head) (append-nil _ ∙ built)) ∙ e)

from_bytes-Holds_example : Holds parsed.0 frame7
from_bytes-Holds_example =
    from_bytes-Holds pair_head frame7
      (frame-IsByte 7 (3 ∷ 9 ∷ []) payload (omega arith) (omega arith))
      (omega (arith, length-layout 0x4567 7 (3 ∷ 9 ∷ []) payload 0x89ab)) parsed.1
