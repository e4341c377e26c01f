-- ===== src/Shell/Laws.antt =====
-- Where the navigation leads.
use adms_server.Common.{
  String, true, false, Option, some, List, [], ◌∷◌, ◌≡◌, refl, All, arith, truthy, get_or,
  Bool-cases, inl, inr, eq_iff, str_eq,
}
use adms_server.Auth.{MeResponse}
use adms_server.Shell.{
  Page, page, dashboard, personnel, devices, attendance, daily, absences, monthly, enrollments,
  mappings, terminal_management, audit, system, require_auth, require_role, terminal_page,
  open_page, nav_paths,
}

-- Each link that the navigation shows to a user who is logged in and known opens a page: no link has
-- no route, and none leads to a page that the user's role is refused, by the route's guard or by the
-- notice that the page of the terminals shows instead.
pub nav_opens :
    (token : Option String) (me : MeResponse)
    → truthy (get_or token "") ≡ true
    → All
        (λ path. (p : Page) × (open_page token (some me) false path ≡ page p))
        (nav_paths (some me))
unfolding open_page nav_paths require_auth require_role
nav_opens token me here = elim (Bool-cases (str_eq me.role "ENROLLMENT_OPERATOR")) [
  | inl e ↦ rw e ((enrollments, opens enrollments), tt)
  | inr e ↦ elim (Bool-cases (str_eq me.role "ADMIN")) [
    | inl a ↦
        rw (e, a)
          (common ("/terminal-management" ∷ "/audit" ∷ [])
            ((terminal_management, opens_terminal a), ((audit, opens_audit a), tt)))
    | inr a ↦ rw (e, a) (common [] tt)
  ]
]
  where
    opens : (p : Page) → require_auth token (page p) ≡ page p
    opens p = rw here refl

    opens_terminal :
        str_eq me.role "ADMIN" ≡ true
        → require_auth token (terminal_page (some me)) ≡ page terminal_management
    opens_terminal a = rw (here, a) refl

    opens_audit :
        str_eq me.role "ADMIN" ≡ true
        → require_auth token (require_role ("ADMIN" ∷ []) (some me) false (page audit)) ≡ page audit
    opens_audit a = ground (arith, eq_iff me.role "ADMIN", eq_iff "ADMIN" me.role)

    common :
        (rest : List String)
        → All (λ path. (p : Page) × (open_page token (some me) false path ≡ page p)) rest
        → All
            (λ path. (p : Page) × (open_page token (some me) false path ≡ page p))
            ("/" ∷ "/daily" ∷ "/absences" ∷ "/monthly" ∷ "/attendance" ∷ "/personnel"
              ∷ "/enrollments" ∷ "/mappings" ∷ "/devices" ∷ "/system" ∷ rest)
    common rest h = (
      (dashboard, opens dashboard),
      (
        (daily, opens daily),
        (
          (absences, opens absences),
          (
            (monthly, opens monthly),
            (
              (attendance, opens attendance),
              (
                (personnel, opens personnel),
                (
                  (enrollments, opens enrollments),
                  (
                    (mappings, opens mappings),
                    ((devices, opens devices), ((system, opens system), h)),
                  ),
                ),
              ),
            ),
          ),
        ),
      ),
    )
