-- ===== src/Http/Listener.antt =====
-- `HttpServer` of http/HttpServer.h and http/HttpServer.cpp: the acceptor of HTTP connections. What
-- the calls of the acceptor set their error codes to is an argument.
pub mod Accepting
use ey_ps.Prelude.{ℕ, ◌+◌, Bool, true, false, List, [], ◌∷◌, ◌++◌, if◌then◌else◌}

-- What fail_ is told.
pub data Failure : Type 0 where
  open_failed set_option_failed bind_failed listen_failed accept_failed : Failure

pub record HttpServer : Type 0 where
  -- The acceptor, as far as the constructor sets it up.
  pub is_open : Bool
  pub reuse_address : Bool
  pub bound : Bool
  pub listening : Bool
  -- The number of async_accept that have not completed.
  pub accepting : ℕ
  -- The sockets for which a detect_session was run, the oldest first.
  pub sessions : List ℕ
  pub failures : List Failure

abbrev pub fail_ : Failure → HttpServer → HttpServer
fail_ what s = record s { failures = s.failures ++ (what ∷ []) }

-- Whether each call of the constructor sets its error code.
pub record Errors : Type 0 where
  pub open_error : Bool
  pub set_option_error : Bool
  pub bind_error : Bool
  pub listen_error : Bool

abbrev pub blank : HttpServer
blank = record {
  is_open = false;
  reuse_address = false;
  bound = false;
  listening = false;
  accepting = 0;
  sessions = [];
  failures = [];
}

-- HttpServer(ssl_context, io_context, ep): the first call that fails ends it.
unfoldable pub make : Errors → HttpServer
make e =
    if e.open_error
    then fail_ open_failed blank
    else if e.set_option_error
    then fail_ set_option_failed (record blank { is_open = true })
    else if e.bind_error
    then fail_ bind_failed (record blank { is_open = true; reuse_address = true })
    else if e.listen_error
    then fail_ listen_failed (record blank { is_open = true; reuse_address = true; bound = true })
    else record blank { is_open = true; reuse_address = true; bound = true; listening = true }

-- do_accept: async_accept is started, whatever the acceptor's state.
unfoldable pub do_accept : HttpServer → HttpServer
do_accept s = record s { accepting = s.accepting + 1 }

unfoldable pub run : HttpServer → HttpServer
unfolding do_accept
run s = do_accept s

-- on_accept, with the socket of the connection
unfoldable pub on_accept : Bool → ℕ → HttpServer → HttpServer
unfolding do_accept
on_accept true socket s = fail_ accept_failed s
on_accept false socket s = do_accept (record s { sessions = s.sessions ++ (socket ∷ []) })
