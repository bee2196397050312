-- ===== src/Tests/Requests.antt =====
-- A run of one HTTP session.
use ey_ps.Prelude.{◌≡◌, refl, true, [], some}
use ey_ps.Prelude.Bytes.{codes}
use ey_ps.Http.Session.{HttpSession, ErrorCode, run, on_read, on_write, Step, Reachable}
use ey_ps.Http.Session.Pending.{Single, Reachable-Single}

-- The session after it has read a request for the configuration.
asked :
    (s : HttpSession) × (on_read ErrorCode.success
        (codes "/getConfig")
        true
        (record run { pending = [] })
      ≡ some s)
unfolding on_read ey_ps.Http.Routes.answers ey_ps.Http.Routes.first_match
    ey_ps.Http.Routes.starts_with
asked = (_, refl)

asked-Reachable : Reachable asked.0
unfolding run
asked-Reachable =
    Reachable.step Reachable.start
      (Step.read_done ErrorCode.success (codes "/getConfig") true [] [] run asked.0 refl asked.1)

abbrev answered : HttpSession
answered = on_write true ErrorCode.success (record asked.0 { pending = [] })

answered-Reachable : Reachable answered
unfolding asked
answered-Reachable =
    Reachable.step asked-Reachable (Step.write_done ErrorCode.success true [] [] asked.0 refl)

Reachable-Single_example : Single answered
Reachable-Single_example = Reachable-Single answered answered-Reachable
