-- ===== src/Hooks/Stream/Framing.antt =====
-- The events that are read do not depend on how the stream is split into chunks.
use Prim.Native.String.{count}
use text.Mathlib.TextLemmas.{cons-append, append-nil, append_assoc, length-cons}
use adms_server.Common.{
  ℕ, zero, suc, ◌≤◌, ◌<◌, String, true, false, Option, none, some, List, [], ◌∷◌, ◌≡◌, refl, ap,
  sym, ◌∙◌, ◌++◌, ◌&&◌, arith, Bool-cases, Option-cases, inl, inr, ◌⊎◌,
}
use Prim.Native.Char.{Char}
use adms_server.Common.Text.{◌+++◌}
use adms_server.Api.Json.{Json}
use adms_server.Hooks.Stream.Events.{
  is_newline, prepend, cut, drain, cons_block, data_line, on_line, on_blocks, Reader, feed,
  read_all,
}

prepend-eq-some :
    (c : Char) (o : Option (String × String)) {block rest : String}
    → prepend c o ≡ some (block, rest)
    → (inner : String) × (o ≡ some (inner, rest)) × (block ≡ String.◌∷◌ c inner)
prepend-eq-some c none e = cc
prepend-eq-some c (some (inner, r)) e = (inner, cc, cc)

cut_blank :
    (c d : Char) (s : String)
    → (is_newline c && is_newline d) ≡ true
    → cut (String.◌∷◌ c (String.◌∷◌ d s)) ≡ some ("", s)
unfolding cut
cut_blank c d s h = rw (h, cut) refl

cut_other :
    (c d : Char) (s : String)
    → (is_newline c && is_newline d) ≡ false
    → cut (String.◌∷◌ c (String.◌∷◌ d s)) ≡ prepend c (cut (String.◌∷◌ d s))
unfolding cut
cut_other c d s h = rw (h, cut) refl

some_pair :
    {a b c d : String}
    → ◌≡◌ {A = Option (String × String)} (some (a, b)) (some (c, d))
    → (a ≡ c) × (b ≡ d)
some_pair e = (cc, cc)

cut_short : (s : String) → (s ≡ "") ⊎ ((c : Char) × (s ≡ String.◌∷◌ c "")) → cut s ≡ none
unfolding cut
cut_short s (inl e) = rw e refl
cut_short s (inr (c, e)) = rw e refl

none-ne-some : {a : String × String} {o : Option (String × String)} → o ≡ none → o ≡ some a → ⊥
none-ne-some e f = cc

-- What is cut off a text is cut off every longer one.
cut-append :
    (s x : String) {block rest : String}
    → cut s ≡ some (block, rest)
    → cut (s +++ x) ≡ some (block, rest +++ x)
cut-append String.[] x e = absurd (none-ne-some (cut_short "" (inl refl)) e)
cut-append (String.◌∷◌ c String.[]) x e = absurd (none-ne-some (cut_short _ (inr (c, refl))) e)
cut-append (String.◌∷◌ c (String.◌∷◌ d s)) x {block} {rest} e =
    rw (cons-append, cons-append)
      (elim (Bool-cases (is_newline c && is_newline d)) [
        | inl blank ↦
            let same = some_pair (sym (cut_blank c d s blank) ∙ e) in
            cut_blank c d (s +++ x) blank
            ∙ ap (λ (b : String). some (b, s +++ x)) same.0
            ∙ ap (λ (r : String). some (block, r +++ x)) same.1
        | inr other ↦
            let (inner, found, is_block) = prepend-eq-some c _ (sym (cut_other c d s other) ∙ e) in
            cut_other c d (s +++ x) other
            ∙ ap (prepend c)
                (ap cut (sym (cons-append d s x)) ∙ cut-append (String.◌∷◌ d s) x found)
            ∙ ap (λ (b : String). some (b, rest +++ x)) (sym is_block)
      ])

-- What is cut off leaves at least two characters fewer.
cut-count :
    (s : String) {block rest : String} → cut s ≡ some (block, rest) → suc (count rest) < count s
cut-count String.[] e = absurd (none-ne-some (cut_short "" (inl refl)) e)
cut-count (String.◌∷◌ c String.[]) e = absurd (none-ne-some (cut_short _ (inr (c, refl))) e)
cut-count (String.◌∷◌ c (String.◌∷◌ d s)) {block} {rest} e =
    elim (Bool-cases (is_newline c && is_newline d)) [
      | inl blank ↦
          let same = some_pair (sym (cut_blank c d s blank) ∙ e) in
          omega (arith, length-cons c (String.◌∷◌ d s), length-cons d s, ap count same.1)
      | inr other ↦
          let (inner, found, is_block) = prepend-eq-some c _ (sym (cut_other c d s other) ∙ e) in
          omega (arith, length-cons c (String.◌∷◌ d s), cut-count (String.◌∷◌ d s) found)
    ]

drain_stop : (f : ℕ) (b : String) → cut b ≡ none → drain f b ≡ ([], b)
unfolding drain
drain_stop zero b e = refl
drain_stop (suc f) b e = rw (e, drain) refl

drain_step :
    (f : ℕ) (b : String) {block rest : String}
    → cut b ≡ some (block, rest)
    → drain (suc f) b ≡ cons_block block (drain f rest)
unfolding drain
drain_step f b e = rw (e, drain) refl

-- With a character's worth of fuel for each character the loop ends by its own test: what it leaves
-- holds no blank line.
drain_done : (f : ℕ) (b : String) → count b ≤ f → cut (drain f b).1 ≡ none
drain_done zero b h = elim (Option-cases (cut b)) [
  | inl stop ↦ rw (drain_stop zero b stop) stop
  | inr ((block, rest), found) ↦ absurd (omega (arith, cut-count b found))
]
drain_done (suc f) b h = elim (Option-cases (cut b)) [
  | inl stop ↦ rw (drain_stop (suc f) b stop) stop
  | inr ((block, rest), found) ↦
      rw (drain_step f b found) (drain_done f rest (omega (arith, cut-count b found)))
]

-- More fuel than that changes nothing.
drain_fuel : (f g : ℕ) (b : String) → count b ≤ f → count b ≤ g → drain f b ≡ drain g b
drain_fuel zero g b h k = elim (Option-cases (cut b)) [
  | inl stop ↦ drain_stop zero b stop ∙ sym (drain_stop g b stop)
  | inr ((block, rest), found) ↦ absurd (omega (arith, cut-count b found))
]
drain_fuel (suc f) zero b h k = elim (Option-cases (cut b)) [
  | inl stop ↦ drain_stop (suc f) b stop ∙ sym (drain_stop zero b stop)
  | inr ((block, rest), found) ↦ absurd (omega (arith, cut-count b found))
]
drain_fuel (suc f) (suc g) b h k = elim (Option-cases (cut b)) [
  | inl stop ↦ drain_stop (suc f) b stop ∙ sym (drain_stop (suc g) b stop)
  | inr ((block, rest), found) ↦
      drain_step f b found
      ∙ ap (cons_block block) (
          drain_fuel f g rest (omega (arith, cut-count b found)) (omega (arith, cut-count b found)))
      ∙ sym (drain_step g b found)
]

-- The loop with the fuel that it is given.
abbrev drain_all : String → List String × String
drain_all b = drain (count b) b

drain_all_step :
    (b : String) {block rest : String}
    → cut b ≡ some (block, rest)
    → drain_all b ≡ cons_block block (drain_all rest)
drain_all_step b {block} {rest} found =
    drain_fuel (count b) (suc (count b)) b (omega arith) (omega arith)
    ∙ drain_step (count b) b found
    ∙ ap (cons_block block)
        (drain_fuel (count b) (count rest) rest (omega (arith, cut-count b found)) (omega arith))

abbrev continue : List String × String → String → List String × String
continue (blocks, rest) x = let more = drain_all (rest +++ x) in (blocks ++ more.0, more.1)

drain-append : (f : ℕ) (b x : String) → count b ≤ f → drain_all (b +++ x) ≡ continue (drain f b) x
drain-append zero b x h = elim (Option-cases (cut b)) [
  | inl stop ↦ rw (drain_stop zero b stop) refl
  | inr ((block, rest), found) ↦ absurd (omega (arith, cut-count b found))
]
drain-append (suc f) b x h = elim (Option-cases (cut b)) [
  | inl stop ↦ rw (drain_stop (suc f) b stop) refl
  | inr ((block, rest), found) ↦
      drain_all_step (b +++ x) (cut-append b x found)
      ∙ ap (cons_block block) (drain-append f rest x (omega (arith, cut-count b found)))
      ∙ ap (λ d. continue d x) (sym (drain_step f b found))
]

on_blocks-append :
    (parse : String → Option Json) (last : Option Json) (bs cs : List String)
    → on_blocks parse last (bs ++ cs) ≡ on_blocks parse (on_blocks parse last bs) cs
unfolding on_blocks
on_blocks-append parse last [] cs = refl
on_blocks-append parse last (b ∷ bs) cs =
    on_blocks-append parse (on_line parse last (data_line b)) bs cs

abbrev pub concat : List String → String
concat [] = ""
concat (s ∷ ss) = s +++ concat ss

module _ (parse : String → Option Json) where
  -- The reader after some blocks, and what the loop left.
  abbrev taken : Option Json → List String × String → Reader
  taken last d = record { buffer = d.1; last_event = on_blocks parse last d.0 }

  feed-append : (r : Reader) (a b : String) → feed parse (feed parse r a) b ≡ feed parse r (a +++ b)
  unfolding feed
  feed-append r a b =
      let whole = drain-append (count (r.buffer +++ a)) (r.buffer +++ a) b (omega arith) in
      ap (λ l. record { buffer = (continue (drain_all (r.buffer +++ a)) b).1; last_event = l })
        (sym (on_blocks-append parse r.last_event _ _))
      ∙ ap (taken r.last_event) (sym whole)
      ∙ ap (λ s. taken r.last_event (drain_all s)) (append_assoc r.buffer a b)

  feed-empty : (r : Reader) → cut r.buffer ≡ none → feed parse r "" ≡ r
  unfolding feed on_blocks
  feed-empty r h = rw (append-nil r.buffer, drain_stop (count r.buffer) r.buffer h) refl

  -- From a reader whose buffer holds no whole block, however the rest of the stream is split into
  -- chunks, what is left in the buffer and the last event are as if it had come in one piece.
  pub read_all-eq-feed :
      (r : Reader) (chunks : List String)
      → cut r.buffer ≡ none
      → read_all parse r chunks ≡ feed parse r (concat chunks)
  unfolding read_all
  read_all-eq-feed r [] h = sym (feed-empty r h)
  read_all-eq-feed r (c ∷ cs) h =
      read_all-eq-feed (feed parse r c) cs
        (unfold feed in drain_done _ (r.buffer +++ c) (omega arith))
      ∙ feed-append r c (concat cs)
