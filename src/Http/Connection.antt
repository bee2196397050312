-- ===== src/Http/Connection.antt =====
-- One HTTP connection from the accepted socket to its end: `detect_session`, then `plain_session` or
-- `ssl_session` (http/detect_session.*, http/plain_session.*, http/ssl_session.*), each of which runs
-- an HttpSession. An object lives as long as an operation is pending that its handler belongs to. Times
-- are in seconds; the timer of the stream is the time at which what is pending is given up.
pub mod Timely
use ey_ps.Prelude.{ℕ, ◌+◌, ◌≤◌, ◌≡◌, Bool, true, false, List, [], ◌∷◌, ◌++◌, some, if◌then◌else◌}
use ey_ps.Http.Session
use ey_ps.Http.Session.{
  HttpSession, Operation, ErrorCode, success, end_of_stream, failure, reading, writing, on_read,
  on_write,
}

-- What the connection waits for, and until when: the detection, the TLS handshake, an operation of
-- the session (of an ssl_session: `true`), the TLS shutdown, or nothing more.
pub data Connection : Type 0 where
  detecting : ℕ → Connection
  handshaking : ℕ → Connection
  serving : Bool → ℕ → HttpSession → Connection
  shutting_down : ℕ → Connection
  ended : Connection

-- expires_after(std::chrono::seconds(30))
abbrev pub expires_after : ℕ → ℕ
expires_after now = now + 30

-- detect_session::run
unfoldable pub detect_run : ℕ → Connection
detect_run now = detecting (expires_after now)

-- ssl_session::run
abbrev pub ssl_run : ℕ → Connection
ssl_run now = handshaking (expires_after now)

-- HttpSession::run and plain_session::run: the first do_read sets the timer.
abbrev pub session_run : Bool → ℕ → Connection
session_run secure now = serving secure (expires_after now) Session.run

-- detect_session::on_detect
unfoldable pub on_detect : ℕ → ErrorCode → Bool → Connection
on_detect now success true = ssl_run now
on_detect now success false = session_run false now
on_detect now end_of_stream result = ended
on_detect now failure result = ended

-- ssl_session::on_handshake
unfoldable pub on_handshake : ℕ → ErrorCode → Connection
on_handshake now success = session_run true now
on_handshake now end_of_stream = ended
on_handshake now failure = ended

-- plain_session::do_close and ssl_session::do_close
abbrev pub do_close : Bool → ℕ → Connection
do_close true now = shutting_down (expires_after now)
do_close false now = ended

-- Where a handler of the session leaves the connection: closed, with an operation pending, or neither.
abbrev pub waiting : Bool → ℕ → List Operation → HttpSession → Connection
waiting secure timer [] s = ended
waiting secure timer (op ∷ ops) s = serving secure timer s

unfoldable pub settled : Bool → ℕ → ℕ → HttpSession → Connection
settled secure now timer s =
    if s.closed then do_close secure now else waiting secure timer s.pending s

-- on_write reads on, which sets the timer anew, where the message kept the connection alive.
abbrev pub write_timer : Bool → ErrorCode → ℕ → ℕ → ℕ
write_timer true success now timer = expires_after now
write_timer keep_alive ec now timer = timer

-- ssl_session::on_shutdown
abbrev pub on_shutdown : ErrorCode → Connection
on_shutdown ec = ended

-- What is pending completes at time `now`, with the error code `ec`.
pub data Step (now : ℕ) (ec : ErrorCode) : Connection → Connection → Type 0 where
  detected : (timer : ℕ) (result : Bool) → Step now ec (detecting timer) (on_detect now ec result)
  handshaken : (timer : ℕ) → Step now ec (handshaking timer) (on_handshake now ec)
  read_done :
      (secure : Bool) (timer : ℕ) (target : List ℕ) (keep_alive : Bool)
      (before after : List Operation) (s s' : HttpSession)
      → s.pending ≡ before ++ (reading ∷ after)
      → on_read ec target keep_alive (record s { pending = before ++ after }) ≡ some s'
      → Step now ec (serving secure timer s) (settled secure now timer s')
  write_done :
      (secure : Bool) (timer : ℕ) (keep_alive : Bool) (before after : List Operation)
      (s : HttpSession)
      → s.pending ≡ before ++ (writing keep_alive ∷ after)
      → Step now ec (serving secure timer s) (
          settled secure now
            (write_timer keep_alive ec now timer)
            (on_write keep_alive ec (record s { pending = before ++ after })))
  shut_down : (timer : ℕ) → Step now ec (shutting_down timer) (on_shutdown ec)

-- The connections that there are at a time, for a socket that was accepted at `opened`.
pub data Reachable (opened : ℕ) : ℕ → Connection → Type 0 where
  start : Reachable opened opened (detect_run opened)
  wait :
      {now later : ℕ} {c : Connection}
      → Reachable opened now c
      → now ≤ later
      → Reachable opened later c
  step :
      {now : ℕ} {c c' : Connection} (ec : ErrorCode)
      → Reachable opened now c
      → Step now ec c c'
      → Reachable opened now c'
