-- ===== src/Hooks/Stream/Connection.antt =====
-- The life of the connections that `connect` in hooks/useAttendanceStream.ts opens. Each call of
-- `connect` has its own `closed` flag and controller; they are numbered in the order of the calls.
pub mod Laws
pub mod Unmount
use adms_server.Common.{
  ℕ, String, Bool, true, false, ◌||◌, Option, none, some, List, [], ◌∷◌, ◌++◌, get_or, truthy,
  if◌then◌else◌, length, get_elem?, set,
}

pub data StreamStatus : Type 0 where
  connecting connected disconnected : StreamStatus

-- Whether `run` of a connection has not ended, its reconnect timer is set, or neither.
pub data Phase : Type 0 where
  running waiting over : Phase

pub record Conn : Type 0 where
  pub closed : Bool
  pub aborted : Bool
  pub phase : Phase

-- `mounted_conn` is the connection whose cleanup the effect runs, and `current` the one whose
-- controller `abortRef` holds.
pub record StreamState : Type 0 where
  pub status : StreamStatus
  pub conns : List Conn
  pub mounted_conn : Option ℕ
  pub current : Option ℕ

pub data StreamEvent : Type 0 where
  -- the response of a connection arrives and is ok
  opened : ℕ → StreamEvent
  -- the `try` of a connection is left: the stream ends, fails or is aborted
  ended : ℕ → StreamEvent
  -- the reconnect timer of a connection fires
  timer : ℕ → StreamEvent
  -- `reconnect`, the button
  reconnect : StreamEvent
  -- the cleanup of the effect
  unmount : StreamEvent

abbrev pub new_conn : Conn
new_conn = record { closed = false; aborted = false; phase = running }

-- `connect`, with the token that `getToken` gives
unfoldable pub connect : Option String → StreamState → StreamState
connect token s =
    if truthy (get_or token "")
    then record s {
      status = connecting;
      conns = s.conns ++ new_conn ∷ [];
      current = some (length s.conns);
    }
    else record s { status = disconnected }

abbrev pub put : StreamState → ℕ → Conn → StreamState
put s k c = record s { conns = set s.conns k c }

abbrev pub abort_conn : Option Conn → ℕ → StreamState → StreamState
abort_conn none k s = s
abort_conn (some c) k s = put s k (record c { aborted = true })

-- `abortRef.current?.abort()`
abbrev pub abort : Option ℕ → StreamState → StreamState
abort none s = s
abort (some k) s = abort_conn (get_elem? s.conns k) k s

abbrev close_conn : Option Conn → ℕ → StreamState → StreamState
close_conn none k s = s
close_conn (some c) k s = put s k (record c { closed = true; aborted = true })

-- The cleanup that the first `connect` returned; the others' are dropped.
abbrev pub close : Option ℕ → StreamState → StreamState
close none s = s
close (some k) s = close_conn (get_elem? s.conns k) k s

on_opened : Option Conn → StreamState → StreamState
on_opened none s = s
on_opened (some c) s = elim c.phase [
  | running ↦ if c.aborted then s else record s { status = connected }
  | _ ↦ s
]

-- the `finally` of `run`
abbrev pub finish : Conn → ℕ → StreamState → StreamState
finish c k s =
    if c.closed || c.aborted
    then put s k (record c { phase = over })
    else put (record s { status = disconnected }) k (record c { phase = waiting })

on_ended : Option Conn → ℕ → StreamState → StreamState
on_ended none k s = s
on_ended (some c) k s = elim c.phase [ running ↦ finish c k s | _ ↦ s ]

-- `if (!closed) connect()`
abbrev pub retry : Option String → Conn → ℕ → StreamState → StreamState
retry token c k s =
    let fired = put s k (record c { phase = over }) in
    if c.closed then fired else connect token fired

on_timer : Option String → Option Conn → ℕ → StreamState → StreamState
on_timer token none k s = s
on_timer token (some c) k s = elim c.phase [ waiting ↦ retry token c k s | _ ↦ s ]

unfoldable pub stream_step : Option String → StreamState → StreamEvent → StreamState
unfolding on_opened on_ended on_timer connect
stream_step token s (opened k) = on_opened (get_elem? s.conns k) s
stream_step token s (ended k) = on_ended (get_elem? s.conns k) k s
stream_step token s (timer k) = on_timer token (get_elem? s.conns k) k s
stream_step token s reconnect = connect token (abort s.current s)
stream_step token s unmount = abort s.current (close s.mounted_conn s)

-- Mounting: the first `connect`, whose cleanup the effect keeps if it returns one.
unfoldable pub mount : Option String → StreamState
unfolding connect
mount token = connect token (record {
  status = disconnected;
  conns = [];
  mounted_conn = if truthy (get_or token "") then some 0 else none;
  current = none;
})

unfoldable pub stream_run : Option String → StreamState → List StreamEvent → StreamState
stream_run token s [] = s
stream_run token s (e ∷ es) = stream_run token (stream_step token s e) es
