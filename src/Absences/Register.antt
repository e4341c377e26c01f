-- ===== src/Absences/Register.antt =====
-- `Absences` of pages/Absences.tsx: the filters, the page number and the query that they make.
pub mod Laws
use adms_server.Common.{
  ℕ, ◌+◌, ◌-◌, ◌*◌, String, Bool, false, not, ◌&&◌, Option, none, some, List, [], ◌∷◌,
  if◌then◌else◌, ltb, leb, ◌==◌, or_none,
}
use adms_server.Api.Query.{Params, QueryValue, word, number, flag}

pub data Scope : Type 0 where
  current all : Scope

-- What the server's count depends on.
pub record Filters : Type 0 where
  pub scope : Scope
  pub show_cancelled : Bool
  pub search : String

pub record RegisterState : Type 0 where
  pub filters : Filters
  pub page : ℕ

abbrev pub limit : ℕ
limit = 50

unfoldable pub register_start : RegisterState
register_start = record {
  filters = record { scope = current; show_cancelled = false; search = "" };
  page = 0;
}

abbrev on_or_after : String → Scope → Option String
on_or_after today current = some today
on_or_after today all = none

abbrev as_word : Option String → Option QueryValue
as_word none = none
as_word (some s) = some (word s)

-- The parameters of `api.absences`; `today` is the platform's date.
unfoldable pub register_query : String → RegisterState → Params
register_query today s =
    ("limit", some (number limit))
    ∷ ("offset", some (number (s.page * limit)))
    ∷ ("on_or_after", as_word (on_or_after today s.filters.scope))
    ∷ ("include_cancelled", some (flag s.filters.show_cancelled))
    ∷ ("search", as_word (or_none s.filters.search))
    ∷ []

pub data RegisterEvent : Type 0 where
  set_scope : Scope → RegisterEvent
  set_show_cancelled : Bool → RegisterEvent
  set_search : String → RegisterEvent
  back next : RegisterEvent

-- `list.data.total > limit`: whether the two page buttons are there.
abbrev pub has_pager : ℕ → Bool
has_pager total = ltb limit total

-- An event; `total` is the server's count for some filters, and the list of the state is loaded.
unfoldable pub register_step : (Filters → ℕ) → RegisterState → RegisterEvent → RegisterState
register_step total s (set_scope v) = record { filters = record s.filters { scope = v }; page = 0 }
register_step total s (set_show_cancelled v) = record s {
  filters = record s.filters { show_cancelled = v };
}
register_step total s (set_search v) = record {
  filters = record s.filters { search = v };
  page = 0;
}
register_step total s back =
    if has_pager (total s.filters) && not (s.page == 0) then record s { page = s.page - 1 } else s
register_step total s next =
    if has_pager (total s.filters) && not (leb (total s.filters) ((s.page + 1) * limit))
    then record s { page = s.page + 1 }
    else s

unfoldable pub register_run : (Filters → ℕ) → RegisterState → List RegisterEvent → RegisterState
register_run total s [] = s
register_run total s (e ∷ es) = register_run total (register_step total s e) es
