-- ===== src/Hooks/Stream/Events.antt =====
-- The reading loop of `connect` in hooks/useAttendanceStream.ts: decoded chunks are gathered in a
-- buffer, and each block that ends in a blank line is read as an event. `JSON.parse` is the
-- parameter `parse`; `none` is a text that it rejects.
use Prim.Native.Char.{Char, code}
use Prim.Native.String.{count}
use adms_server.Common.{
  ℕ, zero, suc, String, Bool, true, false, Option, none, some, List, [], ◌∷◌, if◌then◌else◌, ◌==◌,
  find, ◌&&◌,
}
use adms_server.Common.Text.{begins_with, ◌+++◌}
use adms_server.Api.Json.{Json}

abbrev pub is_newline : Char → Bool
is_newline c = code c == 10

abbrev pub prepend : Char → Option (String × String) → Option (String × String)
prepend c none = none
prepend c (some (block, rest)) = some (String.◌∷◌ c block, rest)

-- `buffer.indexOf("\n\n")` with the slices before and after it; `none` is -1.
unfoldable pub cut : String → Option (String × String)
cut String.[] = none
cut (String.◌∷◌ c String.[]) = none
cut (String.◌∷◌ c (String.◌∷◌ d s)) = elim (is_newline c && is_newline d) [
  | true ↦ some ("", s)
  | false ↦ prepend c (cut (String.◌∷◌ d s))
]

abbrev pub cons_block : String → List String × String → List String × String
cons_block block (blocks, rest) = (block ∷ blocks, rest)

-- The inner loop: the blocks that it takes off the buffer, and what it leaves. Each round takes two
-- characters at least, so the number of characters is enough fuel.
unfoldable pub drain : ℕ → String → List String × String
drain zero buffer = ([], buffer)
drain (suc f) buffer = elim (cut buffer) [
  | none ↦ ([], buffer)
  | some (block, rest) ↦ cons_block block (drain f rest)
]

abbrev cons_line : Char → List String → List String
cons_line c [] = String.◌∷◌ c "" ∷ []
cons_line c (line ∷ lines) = String.◌∷◌ c line ∷ lines

-- `block.split("\n")`
unfoldable pub split_lines : String → List String
split_lines String.[] = "" ∷ []
split_lines (String.◌∷◌ c s) =
    let rest = split_lines s in if is_newline c then "" ∷ rest else cons_line c rest

-- `l.slice(n)` at a line whose first n characters are in the basic plane
abbrev drop : ℕ → String → String
drop zero s = s
drop (suc n) String.[] = ""
drop (suc n) (String.◌∷◌ c s) = drop n s

-- `block.split("\n").find((l) => l.startsWith("data: "))`
unfoldable pub data_line : String → Option String
unfolding split_lines
data_line block = find (λ l. begins_with l "data: ") (split_lines block)

module _ (parse : String → Option Json) where
  -- `setLastEvent(JSON.parse(…))`; a text that is no JSON is ignored.
  abbrev pub accept : Option Json → Option Json → Option Json
  accept last none = last
  accept last (some event) = some event

  abbrev pub on_line : Option Json → Option String → Option Json
  on_line last none = last
  on_line last (some line) = accept last (parse (drop 6 line))

  -- The last event after some blocks.
  unfoldable pub on_blocks : Option Json → List String → Option Json
  on_blocks last [] = last
  on_blocks last (block ∷ blocks) = on_blocks (on_line last (data_line block)) blocks

-- What the loop keeps between two reads.
pub record Reader : Type 0 where
  pub buffer : String
  pub last_event : Option Json

unfoldable pub reader_start : Option Json → Reader
reader_start last = record { buffer = ""; last_event = last }

module _ (parse : String → Option Json) where
  -- One read of the stream: `chunk` is what the decoder gives for it.
  unfoldable pub feed : Reader → String → Reader
  feed r chunk =
      let (blocks, rest) = drain (count (r.buffer +++ chunk)) (r.buffer +++ chunk) in
      record { buffer = rest; last_event = on_blocks parse r.last_event blocks }

  unfoldable pub read_all : Reader → List String → Reader
  read_all r [] = r
  read_all r (chunk ∷ chunks) = read_all (feed r chunk) chunks
