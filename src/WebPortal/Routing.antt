-- ===== src/WebPortal/Routing.antt =====
-- services/web-portal/src/app/routing/routeConfig.ts: the table of the portal's routes.
pub mod Guards
use cn_banking_transaction_s.Base.{Bool, true, false, String, List, [], ◌∷◌, ◌++◌}
use cn_banking_transaction_s.WebPortal.{UserRole, customer, operator, admin}

pub data RouteGroup : Type 0 where
  customer_group admin_group : RouteGroup

pub record PortalRoute : Type 0 where
  pub path : String
  pub label : String
  pub icon : String
  pub phase : String
  pub group : RouteGroup
  pub allowed_roles : List UserRole
  pub access_label : String
  pub source_family : String
  pub description : String
  pub implementation_note : String
  pub show_in_nav : Bool

-- `customerOperatorRoles`, `adminOperatorRoles`, `adminOnlyRoles`
abbrev pub customer_operator_roles : List UserRole
customer_operator_roles = customer ∷ operator ∷ admin ∷ []

abbrev pub admin_operator_roles : List UserRole
admin_operator_roles = operator ∷ admin ∷ []

abbrev pub admin_only_roles : List UserRole
admin_only_roles = admin ∷ []

abbrev pub dashboard_route : PortalRoute
dashboard_route = record {
  path = "/dashboard";
  label = "Dashboard";
  icon = "dashboard";
  phase = "Customer Overview";
  group = customer_group;
  allowed_roles = customer_operator_roles;
  access_label = "Customer / operator";
  source_family = "customer_dashboard_*";
  description = "Account summaries, recent transfers, service state, and role-aware quick actions.";
  implementation_note =
      "This route will connect to accounts, transfers, ledger stats, and health data in Phase 5.";
  show_in_nav = true;
}

abbrev pub accounts_route : PortalRoute
accounts_route = record {
  path = "/accounts";
  label = "Accounts";
  icon = "account_balance";
  phase = "Account Management";
  group = customer_group;
  allowed_roles = customer_operator_roles;
  access_label = "Customer / operator";
  source_family = "account_management_*";
  description = "Account creation, lookup, KYC, balance, and freeze workflows.";
  implementation_note = "This route will use the account gateway endpoints in Phase 6.";
  show_in_nav = true;
}

abbrev pub accounts_one_route : PortalRoute
accounts_one_route = record {
  path = "/accounts/:id";
  label = "Account Detail";
  icon = "account_balance_wallet";
  phase = "Account Management";
  group = customer_group;
  allowed_roles = customer_operator_roles;
  access_label = "Customer / operator";
  source_family = "account_management_*";
  description = "Account detail panel for status, KYC, and balance review.";
  implementation_note = "This route will resolve the account ID through the gateway in Phase 6.";
  show_in_nav = false;
}

abbrev pub transfers_route : PortalRoute
transfers_route = record {
  path = "/transfers";
  label = "Transfers";
  icon = "swap_horiz";
  phase = "Transfer Operations";
  group = customer_group;
  allowed_roles = customer_operator_roles;
  access_label = "Customer / operator";
  source_family = "transfers_*";
  description = "Transfer initiation, validation, idempotency, and saga monitoring.";
  implementation_note = "This route will wire transfer initiation and lookup in Phase 7.";
  show_in_nav = true;
}

abbrev pub transfers_one_route : PortalRoute
transfers_one_route = record {
  path = "/transfers/:id";
  label = "Transfer Detail";
  icon = "receipt_long";
  phase = "Transfer Operations";
  group = customer_group;
  allowed_roles = customer_operator_roles;
  access_label = "Customer / operator";
  source_family = "transfers_*";
  description = "Transfer status, saga state, and retry/copy affordances.";
  implementation_note = "This route will refresh transfer status from the gateway in Phase 7.";
  show_in_nav = false;
}

abbrev pub ledger_route : PortalRoute
ledger_route = record {
  path = "/ledger";
  label = "Ledger";
  icon = "menu_book";
  phase = "Financial Ledger";
  group = customer_group;
  allowed_roles = customer_operator_roles;
  access_label = "Customer / operator";
  source_family = "financial_ledger_*";
  description = "Ledger lookup, grouped entries, transfer audit lookup, and stats cards.";
  implementation_note = "This route will render account and transfer ledger data in Phase 8.";
  show_in_nav = true;
}

abbrev pub ledger_transfers_one_route : PortalRoute
ledger_transfers_one_route = record {
  path = "/ledger/transfers/:transferId";
  label = "Transfer Ledger";
  icon = "fact_check";
  phase = "Financial Ledger";
  group = customer_group;
  allowed_roles = customer_operator_roles;
  access_label = "Customer / operator";
  source_family = "financial_ledger_*";
  description = "Ledger view scoped to a single transfer identifier.";
  implementation_note = "This route will use the transfer ledger lookup endpoint in Phase 8.";
  show_in_nav = false;
}

abbrev pub fraud_route : PortalRoute
fraud_route = record {
  path = "/fraud";
  label = "Fraud";
  icon = "policy";
  phase = "Fraud Monitoring";
  group = admin_group;
  allowed_roles = admin_only_roles;
  access_label = "Admin";
  source_family = "fraud_monitoring_*";
  description = "Fraud KPIs, alert table, severity status, and alert detail navigation.";
  implementation_note = "This route will connect to fraud alerts and stats in Phase 9.";
  show_in_nav = true;
}

abbrev pub fraud_alerts_one_route : PortalRoute
fraud_alerts_one_route = record {
  path = "/fraud/alerts/:alertId";
  label = "Fraud Alert";
  icon = "gpp_maybe";
  phase = "Fraud Monitoring";
  group = admin_group;
  allowed_roles = admin_only_roles;
  access_label = "Admin";
  source_family = "fraud_monitoring_*";
  description = "Alert detail view for transfer and account references.";
  implementation_note = "This route will render fraud alert details in Phase 9.";
  show_in_nav = false;
}

abbrev pub notifications_route : PortalRoute
notifications_route = record {
  path = "/notifications";
  label = "Notifications";
  icon = "notifications";
  phase = "Notification Center";
  group = admin_group;
  allowed_roles = admin_only_roles;
  access_label = "Admin";
  source_family = "notification_center_*";
  description = "Read-only notification timeline with refresh and empty states.";
  implementation_note = "This route will read notification records from the gateway in Phase 10.";
  show_in_nav = true;
}

abbrev pub observability_route : PortalRoute
observability_route = record {
  path = "/observability";
  label = "Observability";
  icon = "monitoring";
  phase = "Observability Dashboard";
  group = admin_group;
  allowed_roles = admin_operator_roles;
  access_label = "Operator / admin";
  source_family = "observability_dashboard_*";
  description = "Gateway-facing operational health and service reachability summary.";
  implementation_note = "This route will summarize health and metrics decisions in Phase 11.";
  show_in_nav = true;
}

abbrev pub platform_health_route : PortalRoute
platform_health_route = record {
  path = "/platform-health";
  label = "Platform Health";
  icon = "health_and_safety";
  phase = "Platform Health";
  group = admin_group;
  allowed_roles = admin_only_roles;
  access_label = "Admin";
  source_family = "platform_health_*";
  description = "Runtime readiness surface backed only by live platform data where available.";
  implementation_note =
      "This route will keep unsupported deployment data out of the live UI in Phase 12.";
  show_in_nav = true;
}

abbrev pub customer_operator_routes : List PortalRoute
customer_operator_routes =
    dashboard_route ∷ accounts_route ∷ accounts_one_route ∷ transfers_route ∷ transfers_one_route
    ∷ ledger_route ∷ ledger_transfers_one_route ∷ []

abbrev pub admin_operator_routes : List PortalRoute
admin_operator_routes =
    fraud_route ∷ fraud_alerts_one_route ∷ notifications_route ∷ observability_route
    ∷ platform_health_route ∷ []

-- `protectedRoutes`
abbrev pub protected_routes : List PortalRoute
protected_routes = customer_operator_routes ++ admin_operator_routes
