-- ===== src/Hooks/Stream/Connection/Laws.antt =====
-- How many connections are alive.
use adms_server.Common.{
  ℕ, ◌+◌, ◌≤◌, String, true, ◌||◌, Option, none, some, List, [], ◌∷◌, ◌≡◌, refl, inl, inr, ap,
  arith, truthy, get_or, get_elem?, sum_by, sum_by-append, sum_by-set, All, Bool-cases,
}
use adms_server.Hooks.Stream.Connection.{
  Phase, running, waiting, over, Conn, StreamState, StreamEvent, opened, ended, timer, reconnect,
  unmount, new_conn, connect, put, abort, close, finish, retry, stream_step, mount, stream_run,
  on_opened, on_ended, on_timer, abort_conn, close_conn,
}

abbrev live : Phase → ℕ
live running = 1
live waiting = 1
live over = 0

-- How many connections are running or will be opened again by their timers.
abbrev pub alive : StreamState → ℕ
alive s = sum_by (λ c. live c.phase) s.conns

-- The events other than the reconnect button.
abbrev IsAutomatic : StreamEvent → Type 0
IsAutomatic (opened k) = Unit
IsAutomatic (ended k) = Unit
IsAutomatic (timer k) = Unit
IsAutomatic reconnect = ⊥
IsAutomatic unmount = Unit

alive-connect : (token : Option String) (s : StreamState) → alive (connect token s) ≤ alive s + 1
unfolding connect
alive-connect token s = elim (Bool-cases (truthy (get_or token ""))) [
  | inl e ↦ rw e (omega (arith, sum_by-append (λ (c : Conn). live c.phase) s.conns (new_conn ∷ [])))
  | inr e ↦ rw e (omega arith)
]

alive-put :
    (s : StreamState) (k : ℕ) {old : Conn} (c : Conn)
    → get_elem? s.conns k ≡ some old
    → alive (put s k c) + live old.phase ≡ alive s + live c.phase
alive-put s k c h = sum_by-set (λ (c : Conn). live c.phase) s.conns k c h

alive-finish :
    (s : StreamState) (k : ℕ) (c : Conn)
    → get_elem? s.conns k ≡ some c
    → c.phase ≡ running
    → alive (finish c k s) ≤ alive s
alive-finish s k c h r = elim (Bool-cases (c.closed || c.aborted)) [
  | inl e ↦ rw e (omega (arith, alive-put s k (record c { phase = over }) h))
  | inr e ↦ rw e (omega (arith, alive-put s k (record c { phase = waiting }) h, ap live r))
]

alive-retry :
    (token : Option String) (s : StreamState) (k : ℕ) (c : Conn)
    → get_elem? s.conns k ≡ some c
    → c.phase ≡ waiting
    → alive (retry token c k s) ≤ alive s
alive-retry token s k c h r = elim (Bool-cases c.closed) [
  | inl e ↦ ground (arith, e, alive-put s k (record c { phase = over }) h)
  | inr e ↦ ground (
    arith,
    e,
    alive-put s k (record c { phase = over }) h,
    ap live r,
    alive-connect token (put s k (record c { phase = over })),
  )
]

-- The phase of a connection, to split on.
data PhaseIs (c : Conn) : Type 0 where
  is_running : c.phase ≡ running → PhaseIs c
  is_waiting : c.phase ≡ waiting → PhaseIs c
  is_over : c.phase ≡ over → PhaseIs c

phase_is : (c : Conn) → PhaseIs c
phase_is c = go c.phase refl
  where
    go : (p : Phase) → c.phase ≡ p → PhaseIs c
    go running e = is_running e
    go waiting e = is_waiting e
    go over e = is_over e

alive-on_opened : (s : StreamState) (o : Option Conn) → alive (on_opened o s) ≤ alive s
unfolding on_opened
alive-on_opened s none = omega arith
alive-on_opened s (some c) = ground arith

alive-on_ended :
    (s : StreamState) (k : ℕ) (o : Option Conn)
    → get_elem? s.conns k ≡ o
    → alive (on_ended o k s) ≤ alive s
unfolding on_ended
alive-on_ended s k none h = omega arith
alive-on_ended s k (some c) h = elim (phase_is c) [
  | is_running r ↦ rw (r, on_ended) (alive-finish s k c h r)
  | is_waiting r ↦ rw (r, on_ended) (omega arith)
  | is_over r ↦ rw (r, on_ended) (omega arith)
]

alive-on_timer :
    (token : Option String) (s : StreamState) (k : ℕ) (o : Option Conn)
    → get_elem? s.conns k ≡ o
    → alive (on_timer token o k s) ≤ alive s
unfolding on_timer
alive-on_timer token s k none h = omega arith
alive-on_timer token s k (some c) h = elim (phase_is c) [
  | is_running r ↦ rw (r, on_timer) (omega arith)
  | is_waiting r ↦ rw (r, on_timer) (alive-retry token s k c h r)
  | is_over r ↦ rw (r, on_timer) (omega arith)
]

alive-abort_conn :
    (s : StreamState) (k : ℕ) (o : Option Conn)
    → get_elem? s.conns k ≡ o
    → alive (abort_conn o k s) ≡ alive s
alive-abort_conn s k none h = refl
alive-abort_conn s k (some c) h = omega (arith, alive-put s k (record c { aborted = true }) h)

alive-abort : (s : StreamState) (o : Option ℕ) → alive (abort o s) ≡ alive s
alive-abort s none = refl
alive-abort s (some k) = alive-abort_conn s k (get_elem? s.conns k) refl

alive-close_conn :
    (s : StreamState) (k : ℕ) (o : Option Conn)
    → get_elem? s.conns k ≡ o
    → alive (close_conn o k s) ≡ alive s
alive-close_conn s k none h = refl
alive-close_conn s k (some c) h =
    omega (arith, alive-put s k (record c { closed = true; aborted = true }) h)

alive-close : (s : StreamState) (o : Option ℕ) → alive (close o s) ≡ alive s
alive-close s none = refl
alive-close s (some k) = alive-close_conn s k (get_elem? s.conns k) refl

alive-step :
    (token : Option String) (s : StreamState) (e : StreamEvent)
    → IsAutomatic e
    → alive (stream_step token s e) ≤ alive s
unfolding stream_step
alive-step token s (opened k) auto = alive-on_opened s (get_elem? s.conns k)
alive-step token s (ended k) auto = alive-on_ended s k (get_elem? s.conns k) refl
alive-step token s (timer k) auto = alive-on_timer token s k (get_elem? s.conns k) refl
alive-step token s reconnect auto = absurd auto
alive-step token s unmount auto =
    omega (arith, alive-abort (close s.mounted_conn s) s.current, alive-close s s.mounted_conn)

alive-run :
    (token : Option String) (s : StreamState) (es : List StreamEvent)
    → All IsAutomatic es
    → alive (stream_run token s es) ≤ alive s
unfolding stream_run
alive-run token s [] h = omega arith
alive-run token s (e ∷ es) (here, later) =
    omega (arith, alive-step token s e here, alive-run token (stream_step token s e) es later)

alive-mount : (token : Option String) → alive (mount token) ≤ 1
unfolding mount
alive-mount token = omega (arith, alive-connect token _)

-- Unless the reconnect button is pressed, at most one connection at a time is open or waiting to be
-- opened again, whatever happens to the connections.
pub one_connection :
    (token : Option String) (es : List StreamEvent)
    → All IsAutomatic es
    → alive (stream_run token (mount token) es) ≤ 1
one_connection token es h = omega (arith, alive-run token (mount token) es h, alive-mount token)
