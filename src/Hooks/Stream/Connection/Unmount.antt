-- ===== src/Hooks/Stream/Connection/Unmount.antt =====
-- What leaving the page does to a connection that waits for its reconnect timer.
use adms_server.Common.{
  ℕ, String, true, false, Option, none, some, ◌≡◌, refl, ◌≢◌, ap, sym, subst, ◌∙◌, arith, truthy,
  get_or, length, get_elem?, get_elem?-append_end, get_elem?-set_ne, get_elem?-set_self, length-set,
  Option-cases, inl, inr,
}
use native.Mathlib.Decide.{ℕ_discrete}
use adms_server.Hooks.Stream.Connection.{
  waiting, over, Conn, StreamState, timer, unmount, new_conn, connect, put, abort, abort_conn,
  close, close_conn, stream_step, on_timer,
}

-- A connection that is not closed and waits for its timer.
abbrev IsWaiting : StreamState → ℕ → Type 0
IsWaiting s k =
    (c : Conn) × (get_elem? s.conns k ≡ some c) × (c.closed ≡ false) × (c.phase ≡ waiting)

put-IsWaiting_ne :
    (s : StreamState) (k j : ℕ) (c : Conn) → j ≢ k → IsWaiting s k → IsWaiting (put s j c) k
put-IsWaiting_ne s k j c apart (w, found, open_still, waits) =
    (w, get_elem?-set_ne s.conns c apart ∙ found, open_still, waits)

some-conn : {c w : Conn} → ◌≡◌ {A = Option Conn} (some c) (some w) → c ≡ w
some-conn e = cc

abort-IsWaiting_self :
    (s : StreamState) (k : ℕ) (c : Conn)
    → get_elem? s.conns k ≡ some c
    → IsWaiting s k
    → IsWaiting (put s k (record c { aborted = true })) k
abort-IsWaiting_self s k c h (w, found, open_still, waits) =
    let same : c ≡ w = some-conn (sym h ∙ found) in
    (
      record c { aborted = true },
      get_elem?-set_self s.conns k _ h,
      ap (λ (d : Conn). d.closed) same ∙ open_still,
      ap (λ (d : Conn). d.phase) same ∙ waits,
    )

abort_conn-IsWaiting :
    (s : StreamState) (k j : ℕ) (o : Option Conn)
    → get_elem? s.conns j ≡ o
    → IsWaiting s k
    → IsWaiting (abort_conn o j s) k
abort_conn-IsWaiting s k j none h w = w
abort_conn-IsWaiting s k j (some c) h w = elim (ℕ_discrete j k) [
  | yes e ↦
      subst (λ i. IsWaiting (put s i (record c { aborted = true })) k) (sym e)
        (abort-IsWaiting_self s k c (ap (get_elem? s.conns) (sym e) ∙ h) w)
  | no apart ↦ put-IsWaiting_ne s k j (record c { aborted = true }) apart w
]

abort-IsWaiting : (s : StreamState) (k : ℕ) (o : Option ℕ) → IsWaiting s k → IsWaiting (abort o s) k
abort-IsWaiting s k none w = w
abort-IsWaiting s k (some j) w = abort_conn-IsWaiting s k j (get_elem? s.conns j) refl w

close_conn-IsWaiting :
    (s : StreamState) (k j : ℕ) (o : Option Conn)
    → j ≢ k
    → IsWaiting s k
    → IsWaiting (close_conn o j s) k
close_conn-IsWaiting s k j none apart w = w
close_conn-IsWaiting s k j (some c) apart w =
    put-IsWaiting_ne s k j (record c { closed = true; aborted = true }) apart w

close-IsWaiting :
    (s : StreamState) (k : ℕ) (o : Option ℕ) → o ≢ some k → IsWaiting s k → IsWaiting (close o s) k
close-IsWaiting s k none apart w = w
close-IsWaiting s k (some j) apart w =
    close_conn-IsWaiting s k j (get_elem? s.conns j) (λ e. apart (ap some e)) w

unmount-IsWaiting :
    (token : Option String) (s : StreamState) (k : ℕ)
    → s.mounted_conn ≢ some k
    → IsWaiting s k
    → IsWaiting (stream_step token s unmount) k
unfolding stream_step
unmount-IsWaiting token s k apart w =
    abort-IsWaiting (close s.mounted_conn s) k s.current
      (close-IsWaiting s k s.mounted_conn apart w)

connect_opens :
    (token : Option String) (s : StreamState)
    → truthy (get_or token "") ≡ true
    → get_elem? (connect token s).conns (length s.conns) ≡ some new_conn
unfolding connect
connect_opens token s logged_in = rw logged_in (get_elem?-append_end s.conns new_conn)

on_timer_retries :
    (token : Option String) (s : StreamState) (k : ℕ) (c : Conn)
    → c.closed ≡ false
    → c.phase ≡ waiting
    → on_timer token (some c) k s ≡ connect token (put s k (record c { phase = over }))
unfolding on_timer
on_timer_retries token s k c open_still waits = ground arith

-- A timer that fires for a connection that is not closed opens one more.
timer_opens :
    (token : Option String) (s : StreamState) (k : ℕ)
    → truthy (get_or token "") ≡ true
    → IsWaiting s k
    → get_elem? (stream_step token s (timer k)).conns (length s.conns) ≡ some new_conn
unfolding stream_step
timer_opens token s k logged_in (c, found, open_still, waits) =
    ap (λ o. get_elem? (on_timer token o k s).conns (length s.conns)) found
    ∙ ap (λ (t : StreamState). get_elem? t.conns (length s.conns))
        (on_timer_retries token s k c open_still waits)
    ∙ ap (get_elem? (connect token (put s k (record c { phase = over }))).conns)
        (sym (length-set s.conns k (record c { phase = over })))
    ∙ connect_opens token (put s k (record c { phase = over })) logged_in

length-abort : (s : StreamState) (o : Option ℕ) → length (abort o s).conns ≡ length s.conns
length-abort s none = refl
length-abort s (some j) = elim (Option-cases (get_elem? s.conns j)) [
  | inl e ↦ rw (e, abort_conn) refl
  | inr (c, e) ↦ rw (e, abort_conn) (length-set s.conns j (record c { aborted = true }))
]

length-close : (s : StreamState) (o : Option ℕ) → length (close o s).conns ≡ length s.conns
length-close s none = refl
length-close s (some j) = elim (Option-cases (get_elem? s.conns j)) [
  | inl e ↦ rw (e, close_conn) refl
  | inr (c, e) ↦ rw (e, close_conn) (length-set s.conns j _)
]

length-unmount :
    (token : Option String) (s : StreamState)
    → length (stream_step token s unmount).conns ≡ length s.conns
unfolding stream_step
length-unmount token s =
    length-abort (close s.mounted_conn s) s.current ∙ length-close s s.mounted_conn

-- Every connection but the first outlives the page: if it waits for its reconnect timer when the
-- page is left, and the operator is still logged in when the timer fires, a new connection is opened
-- then, and runs.
pub reconnect_after_unmount :
    (token : Option String) (s : StreamState) (k : ℕ)
    → truthy (get_or token "") ≡ true
    → s.mounted_conn ≢ some k
    → IsWaiting s k
    → get_elem? (stream_step token (stream_step token s unmount) (timer k)).conns (length s.conns)
      ≡ some new_conn
reconnect_after_unmount token s k logged_in apart w =
    ap (get_elem? (stream_step token (stream_step token s unmount) (timer k)).conns)
      (sym (length-unmount token s))
    ∙ timer_opens token (stream_step token s unmount) k logged_in
        (unmount-IsWaiting token s k apart w)
