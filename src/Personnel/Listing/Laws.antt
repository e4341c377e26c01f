-- ===== src/Personnel/Listing/Laws.antt =====
-- The page, the filters and the selection over the events.
use adms_server.Common.{
  ◌*◌, ◌<◌, String, ◌≡◌, refl, ◌⊎◌, ◌≤◌, not, Option, none, List, [], ◌∷◌, arith, str_eq,
  if◌then◌else◌,
}
use adms_server.Common.Sets.{has, has-add_all, has-delete_all}
use adms_server.Api.Query.{QueryValue, Params}
use adms_server.Personnel.Roster.{Human}
use adms_server.Personnel.Listing.{
  Listing, ListingEvent, set_active, apply_scan_filter, toggle_page, load, limit, flag_of, word_of,
  page_ids, all_page_selected, listing_query, listing_step,
}

-- The page holds a person of the last answer's count, or it is the first one.
abbrev pub PageInRange : Listing → Type 0
PageInRange s = (s.page ≡ 0) ⊎ (s.page * limit < s.total)

-- An answer that counts fewer people than the last one, too few for the page that is shown.
abbrev Shrinks : Listing → ListingEvent → Type 0
Shrinks s (load total) = (total ≤ s.page * limit) × (s.page * limit < s.total)
Shrinks s _ = ⊥

-- Some event of a run is such an answer.
abbrev pub SomeShrinks : Listing → List ListingEvent → Type 0
SomeShrinks s [] = ⊥
SomeShrinks s (e ∷ es) = Shrinks s e ⊎ SomeShrinks (listing_step s e) es

-- A parameter of the query.
abbrev param : String → Params → Option QueryValue
param k [] = none
param k ((j, v) ∷ ps) = let rest = param k ps in if str_eq j k then v else rest

-- Choosing a scan status takes the filter for active people away; choosing that filter afterwards
-- keeps the scan status, so that the query can ask for both, also where they exclude each other.
scan_filter_order :
    (s : Listing) (status active : String)
    → let scanned = listing_step s (apply_scan_filter status) in
      let both = listing_step scanned (set_active active) in
      (param "active" (listing_query scanned) ≡ none)
      × (param "scan_status" (listing_query scanned) ≡ word_of status)
      × (param "active" (listing_query both) ≡ flag_of active)
      × (param "scan_status" (listing_query both) ≡ word_of status)
unfolding listing_step listing_query
scan_filter_order s status active = (refl, refl, refl, refl)

-- The box in the head of the table selects all active people of the page, or none of them if all were
-- selected, and changes nobody else.
toggle_page_lem :
    (s : Listing) (shown : List Human) (id : String)
    → has (listing_step s (toggle_page shown)).selected id ≡ (
        if has (page_ids shown) id
        then not (all_page_selected (page_ids shown) s.selected)
        else has s.selected id)
unfolding listing_step
toggle_page_lem s shown id = ground (
  arith,
  has-add_all s.selected (page_ids shown) id,
  has-delete_all s.selected (page_ids shown) id,
)
