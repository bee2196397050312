-- ===== src/Tests/Listeners.antt =====
-- Runs of the HTTP listener, of connections, and of the answers to whole requests.
use ey_ps.Prelude.{
  ℕ, ◌+◌, ◌≤◌, ◌≡◌, ◌⊎◌, refl, true, false, List, [], ◌∷◌, some, Bool, All, length, arith,
}
use ey_ps.Prelude.Bytes.{codes}
use mathlib.Core.Option
use ey_ps.Http.Session.{ErrorCode}
use ey_ps.Http.Listener.{Errors, make, run}
use ey_ps.Http.Listener.Accepting.{completed_all, completed_all_exact}
use ey_ps.Http.Connection.{Connection, Step, Reachable, on_detect}
use ey_ps.Http.Connection.Timely.{timer_of, Reachable-timely}
use ey_ps.Http.Responses.{Request, Response, responses}
use ey_ps.Http.Responses.Shape.{Plain, responses-Plain}
use ey_ps.Tests.Accounts.{Data, list_mongo, spaced, stored}
use ey_ps.Tests.Sites.{plain, field_messages, some_config, some_keys}

-- The address is taken, and still an accept is started; it lets two connections in before one fails.
abbrev taken : Errors
taken = record {
  open_error = false;
  set_option_error = false;
  bind_error = true;
  listen_error = false;
}

abbrev completions : List (Bool × ℕ)
completions = (false, 4) ∷ (false, 5) ∷ (true, 0) ∷ (false, 6) ∷ []

completed_all_exact_example :
    ((completed_all completions (run (make taken))).sessions ≡ 4 ∷ 5 ∷ [])
    × ((completed_all completions (run (make taken))).accepting ≡ 0)
completed_all_exact_example = completed_all_exact taken completions

-- A connection that was opened at 100 and found to speak TLS three seconds later.
abbrev secured : Connection
secured = on_detect 103 ErrorCode.success true

secured-Reachable : Reachable 100 103 secured
unfolding ey_ps.Http.Connection.detect_run
secured-Reachable =
    Reachable.step ErrorCode.success (Reachable.wait Reachable.start (omega arith))
      (Step.detected 130 true)

Reachable-timely_example :
    (secured ≡ Connection.ended)
    ⊎ ((timer_of secured ≤ 103 + 30)
        × ((c' : Connection) × Step 103 ErrorCode.failure secured c')
        × ((c' : Connection) → Step 103 ErrorCode.failure secured c' → c' ≡ Connection.ended))
Reachable-timely_example = Reachable-timely 100 103 secured secured-Reachable

-- A request for the configuration, to a database that has one account.
abbrev listing : Request
listing = record {
  target = codes "/getConfig?version=1";
  version = 11;
  keep_alive = false;
  body = [];
}

abbrev accounts : Data
accounts = (stored ∷ [], some 100)

listed :
    (rs : List Response) × (responses spaced list_mongo field_messages plain some_config some_keys
        (codes "ab")
        (codes "cd")
        listing
        accounts
      ≡ some (rs, accounts))
unfolding responses Option.bind ey_ps.Http.Routes.answers ey_ps.Http.Routes.first_match
    ey_ps.Http.Routes.starts_with ey_ps.Http.Responses.respond
listed = (_, refl)

responses-Plain_example : (length listed.0 ≤ 1) × All (Plain listing) listed.0
responses-Plain_example =
    responses-Plain spaced list_mongo field_messages plain some_config some_keys (codes "ab")
      (codes "cd") listing accounts listed.0 accounts listed.1
