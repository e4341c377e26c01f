-- ===== src/Personnel/Listing.antt =====
-- `Personnel` of pages/Personnel.tsx: the filters, the page number, the query, and the selection.
pub mod Laws
use adms_server.Common.{
  ℕ, ◌+◌, ◌-◌, ◌*◌, ◌/◌, String, Bool, true, false, not, ◌&&◌, ◌||◌, Option, none, some, List, [],
  ◌∷◌, map, str_eq, leb, ◌==◌, if◌then◌else◌, truthy, set, filter, all, is_empty,
}
use adms_server.Common.Sets.{has, add, delete, add_all, delete_all}
use adms_server.Api.Query.{Params, QueryValue, word, number, flag}
use adms_server.Personnel.Roster.{Human}

-- What the server's list depends on; the selects' values are texts.
pub record Filters : Type 0 where
  pub search : String
  pub scope : String
  pub active_filter : String
  pub scan_status : String
  pub branch : String

-- `total` is `data.total` of the last answer, 0 before the first; `loaded` is whether the table and its
-- page buttons are shown: neither loading nor an error.
pub record Listing : Type 0 where
  pub filters : Filters
  pub page : ℕ
  pub selected : List String
  pub total : ℕ
  pub loaded : Bool

abbrev pub limit : ℕ
limit = 25

unfoldable pub listing_start : Listing
listing_start = record {
  filters = record {
    search = "";
    scope = "true";
    active_filter = "";
    scan_status = "";
    branch = "";
  };
  page = 0;
  selected = [];
  total = 0;
  loaded = false;
}

-- `s === "true" ? true : s === "false" ? false : undefined`
abbrev pub flag_of : String → Option QueryValue
flag_of s =
    if str_eq s "true"
    then some (flag true)
    else if str_eq s "false"
    then some (flag false)
    else none

-- `s || undefined`
abbrev pub word_of : String → Option QueryValue
word_of s = if truthy s then some (word s) else none

-- The parameters of `api.humans`.
unfoldable pub listing_query : Listing → Params
listing_query s =
    ("limit", some (number limit))
    ∷ ("offset", some (number (s.page * limit)))
    ∷ ("search", word_of s.filters.search)
    ∷ ("production_scope", flag_of s.filters.scope)
    ∷ ("active", flag_of s.filters.active_filter)
    ∷ ("scan_status", word_of s.filters.scan_status)
    ∷ ("branch", word_of s.filters.branch)
    ∷ []

pub data ListingEvent : Type 0 where
  set_search set_scope set_active set_branch : String → ListingEvent
  -- `applyScanFilter`, from the select and from the cards above the list
  apply_scan_filter : String → ListingEvent
  -- a section of the readiness card
  pick_branch : String → ListingEvent
  back next : ListingEvent
  toggle_selected : String → ListingEvent
  -- the box in the head of the table, with the people shown; and the bar's end
  toggle_page : List Human → ListingEvent
  clear_selection : ListingEvent
  -- the list is asked for again, as after a change of a person, and its answers
  reload : ListingEvent
  load : ℕ → ListingEvent
  load_failed : ListingEvent

-- `Math.ceil(total / limit)`
abbrev page_count : ℕ → ℕ
page_count total = (total + 24) / 25

-- `pageIds`
abbrev pub page_ids : List Human → List String
page_ids hs = map (λ h. h.employee_id) (filter (λ h. h.active) hs)

-- `allPageSelected`
unfoldable pub all_page_selected : List String → List String → Bool
all_page_selected ids set = not (is_empty ids) && all (has set) ids

-- `useApi` asks again when a member of the query has changed.
abbrev same_query : Listing → Listing → Bool
same_query s r =
    str_eq s.filters.search r.filters.search
    && str_eq s.filters.scope r.filters.scope
    && str_eq s.filters.active_filter r.filters.active_filter
    && str_eq s.filters.scan_status r.filters.scan_status
    && str_eq s.filters.branch r.filters.branch
    && s.page == r.page

abbrev asked : Listing → Listing → Listing
asked s r = record r { loaded = s.loaded && same_query s r }

-- The list with other filters: its first page.
abbrev filtered : Listing → Filters → Listing
filtered s f = asked s (record s { filters = f; page = 0 })

-- An event. The page buttons are there only while the table is shown.
unfoldable pub listing_step : Listing → ListingEvent → Listing
unfolding all_page_selected
listing_step s (set_search v) = filtered s (record s.filters { search = v })
listing_step s (set_scope v) = filtered s (record s.filters { scope = v })
listing_step s (set_active v) = filtered s (record s.filters { active_filter = v })
listing_step s (set_branch v) = filtered s (record s.filters { branch = v })
listing_step s (apply_scan_filter v) =
    filtered s (record s.filters { scan_status = v; active_filter = "" })
listing_step s (pick_branch b) = filtered s (record s.filters {
  scan_status = "needs_enrollment";
  active_filter = "";
  branch = if str_eq b "—" then "" else b;
})
listing_step s back =
    if not s.loaded || s.page == 0 then s else asked s (record s { page = s.page - 1 })
listing_step s next =
    if not s.loaded || leb (page_count s.total) (s.page + 1)
    then s
    else asked s (record s { page = s.page + 1 })
listing_step s (toggle_selected id) = record s {
  selected = if has s.selected id then delete s.selected id else add s.selected id;
}
listing_step s (toggle_page shown) = record s {
  selected =
      if all_page_selected (page_ids shown) s.selected
      then delete_all s.selected (page_ids shown)
      else add_all s.selected (page_ids shown);
}
listing_step s clear_selection = record s { selected = [] }
listing_step s reload = record s { loaded = false }
listing_step s (load total) = record s { total = total; loaded = true }
listing_step s load_failed = record s { loaded = false }

unfoldable pub listing_run : Listing → List ListingEvent → Listing
listing_run s [] = s
listing_run s (e ∷ es) = listing_run (listing_step s e) es
