-- ===== src/Catalog/Connectors.antt =====
-- src/wootpilot/domain/models/connectors.py and catalog/factory.py: which connector an installation
-- gives.
use mathlib.Core.Bool.{Bool, true, ◌&&◌, not}
use mathlib.Core.Option.{Option, none, some}
use mathlib.Core.List.{List, [], ◌∷◌}
use wootpilot.Prelude.Tests.{if◌then◌else◌}
use wootpilot.Prelude.Lists.{any, filter}
use wootpilot.Prelude.Text.{Text, codes, truthy, str_eq, str_gt}
use wootpilot.Prelude.Json.{Json, str, Fields, end, field, get, ◌or◌, str_of}
use wootpilot.Domain.Outbound.{Result, ok, err, Failure, ◌>>=◌}

pub data ConnectorCapability : Type 0 where
  product_catalog_read order_read customer_read order_note_write : ConnectorCapability
  order_status_update refund_create coupon_create customer_tag_write : ConnectorCapability

abbrev pub capability_value : ConnectorCapability → Text
capability_value ConnectorCapability.product_catalog_read = codes "product_catalog_read"
capability_value ConnectorCapability.order_read = codes "order_read"
capability_value ConnectorCapability.customer_read = codes "customer_read"
capability_value ConnectorCapability.order_note_write = codes "order_note_write"
capability_value ConnectorCapability.order_status_update = codes "order_status_update"
capability_value ConnectorCapability.refund_create = codes "refund_create"
capability_value ConnectorCapability.coupon_create = codes "coupon_create"
capability_value ConnectorCapability.customer_tag_write = codes "customer_tag_write"

-- Members of a StrEnum are equal where their values are.
unfoldable pub same_capability : ConnectorCapability → ConnectorCapability → Bool
unfolding str_eq
same_capability a b = str_eq (capability_value a) (capability_value b)

pub record ConnectorInstallation : Type 0 where
  pub id : Text
  pub tenant_id : Text
  pub connector_key : Text
  pub display_name : Text
  pub enabled : Bool
  pub supported_capabilities : List ConnectorCapability
  pub enabled_capabilities : List ConnectorCapability
  pub policy_allowed_capabilities : List ConnectorCapability
  pub config : Fields
  pub credentials_ref : Option Text

-- `capability in capabilities`
unfoldable pub has_capability : ConnectorCapability → List ConnectorCapability → Bool
unfolding any same_capability
has_capability c cs = any (same_capability c) cs

-- self.policy_allowed_capabilities or self.supported_capabilities
abbrev pub or_supported : (allowed supported : List ConnectorCapability) → List ConnectorCapability
or_supported [] supported = supported
or_supported (c ∷ allowed) supported = c ∷ allowed

-- set(...), the last occurrence kept, in the order of the values
unfoldable pub distinct : List ConnectorCapability → List ConnectorCapability
unfolding has_capability
distinct [] = []
distinct (c ∷ cs) = let rest = distinct cs in if has_capability c cs then rest else c ∷ rest

unfoldable pub insert_by_value :
    ConnectorCapability → List ConnectorCapability → List ConnectorCapability
unfolding str_gt
insert_by_value c [] = c ∷ []
insert_by_value c (d ∷ ds) =
    let rest = insert_by_value c ds in
    if str_gt (capability_value c) (capability_value d) then d ∷ rest else c ∷ d ∷ ds

unfoldable pub sort_by_value : List ConnectorCapability → List ConnectorCapability
unfolding insert_by_value
sort_by_value [] = []
sort_by_value (c ∷ cs) = insert_by_value c (sort_by_value cs)

unfoldable pub effective_capabilities : ConnectorInstallation → List ConnectorCapability
unfolding distinct sort_by_value has_capability filter
effective_capabilities installation =
    let allowed =
      or_supported installation.policy_allowed_capabilities installation.supported_capabilities in
    if not installation.enabled
    then []
    else sort_by_value (
        filter (λ c. has_capability c installation.enabled_capabilities && has_capability c allowed)
          (distinct installation.supported_capabilities))

pub data CatalogConnectorMode : Type 0 where
  mock store_api : CatalogConnectorMode

abbrev pub mode_value : CatalogConnectorMode → Text
mode_value CatalogConnectorMode.mock = codes "mock"
mode_value CatalogConnectorMode.store_api = codes "store_api"

-- The settings that select a connector.
pub record CatalogSettings : Type 0 where
  pub catalog_connector_mode : CatalogConnectorMode
  pub woocommerce_store_api_base_url : Text
  pub mock_catalog_path : Text

-- The connector that is built.
pub data Connector : Type 0 where
  store_api_catalog : (base_url : Text) → Connector
  mock_catalog : (path : Text) → Connector

-- CatalogConnectorMode(value)
unfoldable pub mode_of : Json → Result CatalogConnectorMode
unfolding str_eq
mode_of (str t) =
    if str_eq t (codes "mock")
    then ok CatalogConnectorMode.mock
    else if str_eq t (codes "store_api")
    then ok CatalogConnectorMode.store_api
    else err Failure.value_error
mode_of _ = err Failure.value_error

module _ (repr : Json → Text) (settings : CatalogSettings) where
  abbrev pub base_url_of : ConnectorInstallation → Text
  base_url_of installation =
      str_of repr
        (get installation.config (codes "base_url") or str settings.woocommerce_store_api_base_url)

  abbrev pub build : ConnectorInstallation → CatalogConnectorMode → Result Connector
  build installation CatalogConnectorMode.store_api =
      if truthy (base_url_of installation)
      then ok (Connector.store_api_catalog (base_url_of installation))
      else err Failure.value_error
  build installation CatalogConnectorMode.mock =
      ok (Connector.mock_catalog settings.mock_catalog_path)

  -- default_catalog_installation_from_settings
  abbrev pub default_installation : ConnectorInstallation
  default_installation =
      let capabilities = ConnectorCapability.product_catalog_read ∷ [] in
      let mode = mode_value settings.catalog_connector_mode in
      let base_url = settings.woocommerce_store_api_base_url in
      record {
        id = codes "default-woocommerce-catalog";
        tenant_id = codes "default";
        connector_key = codes "woocommerce";
        display_name = codes "Default WooCommerce Catalog";
        enabled = true;
        supported_capabilities = capabilities;
        enabled_capabilities = capabilities;
        policy_allowed_capabilities = capabilities;
        config =
            field (codes "mode") (str mode)
              (if truthy base_url then field (codes "base_url") (str base_url) end else end);
        credentials_ref = none;
      }

  abbrev pub or_default : Option ConnectorInstallation → ConnectorInstallation
  or_default none = default_installation
  or_default (some installation) = installation

  unfoldable pub require_product_catalog : Option ConnectorInstallation → Result Connector
  require_product_catalog installation =
      let configured = or_default installation in
      let mode =
        get configured.config (codes "mode") or str (mode_value settings.catalog_connector_mode) in
      if not (
        has_capability ConnectorCapability.product_catalog_read (effective_capabilities configured))
      then err Failure.value_error
      else if not (str_eq configured.connector_key (codes "woocommerce"))
      then err Failure.value_error
      else mode_of mode >>= build configured
