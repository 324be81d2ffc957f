-- ===== src/WebPortal/Routing/Guards.antt =====
-- services/web-portal/src/app/routing: the guard of a route, the routes under their guards, and the
-- menu.
pub mod Menu
pub mod Visits
use cn_banking_transaction_s.Base.{
  Bool, true, false, not, ◌&&◌, ◌||◌, String, Option, none, some, List, [], ◌∷◌, ◌++◌, map, ℕ, ◌==◌,
  if◌then◌else◌,
}
use cn_banking_transaction_s.Effect.{Result, ok, err, Script, Exec}
use cn_banking_transaction_s.Events.{codes}
use cn_banking_transaction_s.WebPortal.{
  UserRole, customer, operator, admin, AuthSession, JwtClaims, or_else, read_stored_session,
}
use cn_banking_transaction_s.WebPortal.Client.{ApiResult, api_success, api_failure}
use cn_banking_transaction_s.WebPortal.Auth.{Browser, RefreshResponse, Route, refresh_auth_session}
use cn_banking_transaction_s.WebPortal.Routing.{
  PortalRoute, customer_operator_routes, admin_operator_routes, admin_operator_roles,
}

abbrev pub same_role : UserRole → UserRole → Bool
same_role customer customer = true
same_role operator operator = true
same_role admin admin = true
same_role _ _ = false

-- roles.includes(role)
abbrev pub includes : List UserRole → UserRole → Bool
includes [] role = false
includes (r ∷ roles) role = same_role r role || includes roles role

-- `refreshState`
pub data RefreshState : Type 0 where
  idle refreshing restored refresh_failed : RefreshState

-- The state of one `ProtectedRoute`.
pub record Guard : Type 0 where
  pub restored_session : Option AuthSession
  pub refresh_state : RefreshState

abbrev pub new_guard : Guard
new_guard = record { restored_session = none; refresh_state = idle }

-- What a guard shows: the note that the session is restored, a redirect to /login, the page
-- "forbidden", or what is inside.
pub data GuardView : Type 0 where
  restoring to_login forbidden_page outlet : GuardView

abbrev pub may_restore : RefreshState → Bool
may_restore idle = true
may_restore refreshing = true
may_restore restored = false
may_restore refresh_failed = false

-- allowedRoles && !allowedRoles.includes(session.role)
abbrev pub admits : Option (List UserRole) → UserRole → Bool
admits none role = true
admits (some roles) role = includes roles role

-- What `ProtectedRoute` renders for the session `getSession() ?? restoredSession`; the flag says that
-- a `refreshSession` is given.
unfoldable pub guard_view :
    Option (List UserRole) → Bool → RefreshState → Option AuthSession → GuardView
guard_view allowed can_refresh state none =
    if can_refresh && may_restore state then restoring else to_login
guard_view allowed can_refresh state (some session) =
    if admits allowed session.role then outlet else forbidden_page

-- The condition under which the effect of `ProtectedRoute` starts a refresh.
abbrev pub is_idle : RefreshState → Bool
is_idle idle = true
is_idle _ = false

abbrev pub has_session : Option AuthSession → Bool
has_session none = false
has_session (some session) = true

unfoldable pub starts_refresh : Option AuthSession → Bool → RefreshState → Bool
starts_refresh session can_refresh state = not (has_session session) && can_refresh && is_idle state

-- The continuation of `refreshSession()`; a refresh that throws leaves the state as it is.
unfoldable pub settled : Guard → Result (ApiResult AuthSession) → Guard
settled g (ok (api_success c session i)) = record {
  restored_session = some session;
  refresh_state = restored;
}
settled g (ok (api_failure c e i r)) = record g { refresh_state = refresh_failed }
settled g (err e) = g

-- A route of the first table is behind the outer guard only; a route of the second table is behind
-- three guards, one in the other.
abbrev pub inside : GuardView → GuardView → GuardView
inside outlet view = view
inside view _ = view

unfoldable pub customer_route_view :
    Bool → RefreshState → Option AuthSession → PortalRoute → GuardView
unfolding guard_view
customer_route_view can_refresh state session route = guard_view none can_refresh state session

unfoldable pub admin_route_view : Bool → RefreshState → Option AuthSession → PortalRoute → GuardView
unfolding guard_view
admin_route_view can_refresh state session route =
    inside (guard_view none can_refresh state session) (
      inside (guard_view (some admin_operator_roles) can_refresh state session)
        (guard_view (some route.allowed_roles) can_refresh state session))

abbrev pub filter : {A : Type 0} → (A → Bool) → List A → List A
filter p [] = []
filter p (x ∷ xs) = let rest = filter p xs in if p x then x ∷ rest else rest

abbrev pub role_of : Option AuthSession → UserRole
role_of none = customer
role_of (some session) = session.role

-- pathname === href || pathname.startsWith(`${href}/`), on code points
abbrev pub starts_with : List ℕ → List ℕ → Bool
starts_with [] text = true
starts_with (c ∷ prefix) [] = false
starts_with (c ∷ prefix) (d ∷ text) = let rest = starts_with prefix text in c == d && rest

abbrev pub same_text : List ℕ → List ℕ → Bool
same_text [] [] = true
same_text (c ∷ s) (d ∷ t) = let rest = same_text s t in c == d && rest
same_text _ _ = false

unfoldable pub is_active_route : List ℕ → List ℕ → Bool
is_active_route pathname href = same_text pathname href || starts_with (href ++ b'/' ∷ []) pathname

pub record NavItem : Type 0 where
  pub active : Bool
  pub href : String
  pub icon : String
  pub label : String

-- `adminOperatorRoles` of PortalLayout.tsx
abbrev pub layout_admin_roles : List UserRole
layout_admin_roles = admin ∷ operator ∷ []

-- The routes of the menu of `PortalLayout`.
unfoldable pub nav_routes : UserRole → List PortalRoute
nav_routes role =
    filter (λ r. r.show_in_nav)
      (filter (λ r. includes r.allowed_roles role)
        (if includes layout_admin_roles role
          then customer_operator_routes ++ admin_operator_routes
          else customer_operator_routes))

-- `navItems`
unfoldable pub nav_items : List ℕ → Option AuthSession → List NavItem
unfolding nav_routes is_active_route
nav_items pathname session =
    map
      (λ r. record {
        active = is_active_route pathname (codes r.path);
        href = r.path;
        icon = r.icon;
        label = r.label;
      })
      (nav_routes (role_of session))

module _ {S : Type 0} (claims_of : String → Option JwtClaims) where
  -- The guard has rendered, its effect runs, and the guard renders again behind it.
  abbrev pub rendered :
      Option (List UserRole)
      → Result (ApiResult AuthSession) × Script × Browser S
      → GuardView × Browser S
  unfolding settled guard_view
  rendered allowed (r, f, b) =
      let g = settled (record { restored_session = none; refresh_state = refreshing }) r in
      (
        guard_view allowed true g.refresh_state
            (or_else (read_stored_session claims_of b.portal) g.restored_session),
        b,
      )

  -- A visit of a guarded route: the view that stays, with `refreshAuthSession` as `refreshSession`.
  unfoldable pub visit :
      (String → Route S RefreshResponse)
      → ℕ
      → Option (List UserRole)
      → Script
      → Browser S
      → GuardView × Browser S
  unfolding rendered starts_refresh
  visit refresh now allowed f b =
      if starts_refresh (read_stored_session claims_of b.portal) true new_guard.refresh_state
      then rendered allowed (refresh_auth_session claims_of refresh now f b)
      else (
        guard_view allowed true new_guard.refresh_state (read_stored_session claims_of b.portal),
        b,
      )
