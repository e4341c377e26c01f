-- ===== src/Hooks/Stream/Tests.antt =====
-- The reader on a split stream, and a page that is left while a connection waits.
use adms_server.Common.{
  ◌≤◌, String, Option, none, some, List, [], ◌∷◌, ◌≡◌, refl, length, get_elem?,
}
use adms_server.Api.Json.{Json, str}
use adms_server.Hooks.Stream.Events.{
  cut, drain, split_lines, data_line, on_blocks, reader_start, feed, read_all,
}
use adms_server.Hooks.Stream.Framing.{read_all-eq-feed, concat}
use adms_server.Hooks.Stream.Connection.{
  StreamState, opened, ended, timer, unmount, reconnect, connect, new_conn, stream_step, mount,
  stream_run,
}
use adms_server.Hooks.Stream.Connection.Laws.{alive, one_connection}
use adms_server.Hooks.Stream.Connection.Unmount.{reconnect_after_unmount}

abbrev two_events : String
two_events = "data: a\n\ndata: b\n\nda"

-- The event's text stands for its parse.
abbrev parse : String → Option Json
parse s = some (str s)

abbrev pieces : List String
pieces = "data: a" ∷ "\n" ∷ "\ndata: b\n\nda" ∷ []

read_all-eq-feed_example :
    read_all parse (reader_start none) pieces ≡ feed parse (reader_start none) (concat pieces)
unfolding reader_start cut
read_all-eq-feed_example = read_all-eq-feed parse (reader_start none) pieces refl

pieces_read :
    read_all parse (reader_start none) pieces
    ≡ record { buffer = "da"; last_event = some (str "b") }
unfolding reader_start read_all feed drain cut on_blocks data_line split_lines
pieces_read = refl

one_connection_example :
    alive (stream_run (some "t") (mount (some "t")) (opened 0 ∷ ended 0 ∷ timer 0 ∷ opened 1 ∷ []))
    ≤ 1
one_connection_example =
    one_connection (some "t") (opened 0 ∷ ended 0 ∷ timer 0 ∷ opened 1 ∷ [])
      (tt, (tt, (tt, (tt, tt))))

-- The second connection has ended, and its timer is set.
abbrev waiting_page : StreamState
waiting_page = stream_run (some "t") (mount (some "t")) (ended 0 ∷ timer 0 ∷ ended 1 ∷ [])

reconnect_after_unmount_example :
    get_elem?
      (stream_step (some "t") (stream_step (some "t") waiting_page unmount) (timer 1)).conns
      (length waiting_page.conns)
    ≡ some new_conn
unfolding stream_run mount stream_step connect
reconnect_after_unmount_example =
    reconnect_after_unmount (some "t") waiting_page 1 refl (λ e. cc) (_, refl, refl, refl)

-- The reconnect button, pressed while a timer is set, gives two connections.
two_connections :
    alive (stream_run (some "t") (mount (some "t")) (ended 0 ∷ reconnect ∷ timer 0 ∷ [])) ≡ 2
unfolding stream_run mount stream_step connect
two_connections = refl
