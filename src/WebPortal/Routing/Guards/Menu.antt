-- ===== src/WebPortal/Routing/Guards/Menu.antt =====
-- services/web-portal/src/app/routing: the menu against the guards.
use cn_banking_transaction_s.Base.{◌≡◌, refl, Bool, true, false, ◌&&◌, some, List, ◌++◌}
use cn_banking_transaction_s.WebPortal.{UserRole, customer, operator, admin, AuthSession}
use cn_banking_transaction_s.WebPortal.Routing.{
  PortalRoute, customer_operator_routes, admin_operator_routes,
}
use cn_banking_transaction_s.WebPortal.Routing.Guards.{
  RefreshState, GuardView, outlet, guard_view, customer_route_view, admin_route_view, filter,
  nav_routes,
}

abbrev is_outlet : GuardView → Bool
is_outlet outlet = true
is_outlet _ = false

-- The listed routes that the guards open for the session.
abbrev pub open_routes : Bool → RefreshState → AuthSession → List PortalRoute
open_routes can_refresh state session =
    filter
      (λ r. r.show_in_nav && is_outlet (customer_route_view can_refresh state (some session) r))
      customer_operator_routes
    ++ filter
        (λ r. r.show_in_nav && is_outlet (admin_route_view can_refresh state (some session) r))
        admin_operator_routes

-- The menu of the portal has exactly the routes that are listed for it and whose guards open for
-- the session, in the order of the tables: no entry leads to the page "forbidden" or to /login, and
-- no listed route that the session may open is missing.
pub nav_routes-open_routes :
    (can_refresh : Bool) (state : RefreshState) (session : AuthSession)
    → nav_routes session.role ≡ open_routes can_refresh state session
unfolding nav_routes customer_route_view admin_route_view guard_view
nav_routes-open_routes can_refresh state session = by_role session.role
  where
    by_role :
        (role : UserRole)
        → nav_routes role ≡ open_routes can_refresh state (record session { role = role })
    by_role customer = refl
    by_role operator = refl
    by_role admin = refl
