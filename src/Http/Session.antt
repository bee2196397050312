-- ===== src/Http/Session.antt =====
-- `HttpSession` of http/HttpSession.h, with the asynchronous operations that it has started and that
-- have not completed. A session with none of them left is destroyed.
pub mod Pending
use ey_ps.Prelude.{ℕ, Bool, true, false, List, [], ◌∷◌, ◌++◌, Option, none, some, ◌≡◌}
use ey_ps.Http.Routes.{Route, answers}
use mathlib.Core.Option

-- async_read, and async_write with what is bound to its handler: whether the message keeps the
-- connection alive.
pub data Operation : Type 0 where
  reading : Operation
  writing : Bool → Operation

pub data ErrorCode : Type 0 where
  success end_of_stream failure : ErrorCode

pub record HttpSession : Type 0 where
  pub pending : List Operation
  -- do_close has been called.
  pub closed : Bool
  -- What was sent, the oldest first.
  pub sent : List Route

-- HttpSession(buffer), then run: the first read is started on the stream's executor.
unfoldable pub run : HttpSession
run = record { pending = reading ∷ []; closed = false; sent = [] }

unfoldable pub do_read : HttpSession → HttpSession
do_read s = record s { pending = s.pending ++ (reading ∷ []) }

abbrev pub do_close : HttpSession → HttpSession
do_close s = record s { closed = true }

-- send_lambda, for one message
abbrev pub send : Bool → Route → HttpSession → HttpSession
send keep_alive route s = record s {
  pending = s.pending ++ (writing keep_alive ∷ []);
  sent = s.sent ++ (route ∷ []);
}

unfoldable pub send_all : Bool → List Route → HttpSession → HttpSession
send_all keep_alive [] s = s
send_all keep_alive (route ∷ routes) s = send_all keep_alive routes (send keep_alive route s)

-- on_read, for a request with this target; its answers keep the connection alive as it does.
unfoldable pub on_read : ErrorCode → List ℕ → Bool → HttpSession → Option HttpSession
unfolding send_all
on_read success target keep_alive s =
    Option.map (λ routes. send_all keep_alive routes s) (answers target)
on_read end_of_stream target keep_alive s = some (do_close s)
on_read failure target keep_alive s = some s

-- on_write, whose parameter `close` is what the message's keep_alive was.
unfoldable pub on_write : Bool → ErrorCode → HttpSession → HttpSession
unfolding do_read
on_write true success s = do_read s
on_write false success s = do_close s
on_write close end_of_stream s = s
on_write close failure s = s

-- One of the operations completes.
pub data Step : HttpSession → HttpSession → Type 0 where
  read_done :
      (ec : ErrorCode) (target : List ℕ) (keep_alive : Bool) (before after : List Operation)
      (s s' : HttpSession)
      → s.pending ≡ before ++ (reading ∷ after)
      → on_read ec target keep_alive (record s { pending = before ++ after }) ≡ some s'
      → Step s s'
  write_done :
      (ec : ErrorCode) (keep_alive : Bool) (before after : List Operation) (s : HttpSession)
      → s.pending ≡ before ++ (writing keep_alive ∷ after)
      → Step s (on_write keep_alive ec (record s { pending = before ++ after }))

pub data Reachable : HttpSession → Type 0 where
  start : Reachable run
  step : {s s' : HttpSession} → Reachable s → Step s s' → Reachable s'
