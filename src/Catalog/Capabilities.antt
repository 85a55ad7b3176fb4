-- ===== src/Catalog/Capabilities.antt =====
-- domain/models/connectors.py and catalog/factory.py: what an installation may be used for.
use mathlib.Core.Path.{◌≡◌, refl, subst, sym}
use mathlib.Core.Logic.{◌≢◌, ◌⊎◌, ◌↔◌, inl, inr}
use mathlib.Core.Bool.{true, ◌&&◌}
use mathlib.Core.Option.{Option}
use mathlib.Core.List.{List, [], ◌∷◌}
use native.Mathlib.Omega.{arith}
use wootpilot.Prelude.Tests.{Bool-cases, and_true}
use wootpilot.Prelude.Lists.{◌∈◌, any-exists, any-of_mem, mem_of_mem-filter, mem-filter_of_mem}
use wootpilot.Prelude.Text.{Text, codes, str_eq, str_eq_iff}
use wootpilot.Prelude.Json.{Json}
use wootpilot.Domain.Outbound.{ok, err, Failure}
use wootpilot.Catalog.Connectors.{
  CatalogSettings, Connector, ConnectorCapability, ConnectorInstallation, distinct,
  effective_capabilities, has_capability, insert_by_value, or_default, or_supported,
  require_product_catalog, same_capability, sort_by_value,
}

same_capability_refl : (c : ConnectorCapability) → same_capability c c ≡ true
unfolding same_capability str_eq
same_capability_refl c = ground arith

same_capability→≡ : (c d : ConnectorCapability) → same_capability c d ≡ true → c ≡ d
unfolding same_capability str_eq
same_capability→≡ c d h = ground arith

has_capability_iff :
    (c : ConnectorCapability) (cs : List ConnectorCapability)
    → (has_capability c cs ≡ true) ↔ (c ∈ cs)
unfolding has_capability
has_capability_iff c cs = (
  λ h.
      let (d, among, same) = any-exists (same_capability c) cs h in
      subst (λ (e : ConnectorCapability). e ∈ cs) (sym (same_capability→≡ c d same)) among,
  λ m. any-of_mem (same_capability c) c cs m (same_capability_refl c),
)

mem-distinct :
    (c : ConnectorCapability) (cs : List ConnectorCapability) → (c ∈ distinct cs) ↔ (c ∈ cs)
unfolding distinct
mem-distinct c [] = (λ m. m, λ m. m)
mem-distinct c (d ∷ cs) = (
  λ m. ground (arith, (mem-distinct c cs).0),
  λ m. elim (Bool-cases (has_capability d cs)) [
    | inl again ↦ elim m [
      | inl same ↦ rw again (
          (mem-distinct c cs).1 (
            subst (λ (e : ConnectorCapability). e ∈ cs) (sym same)
              ((has_capability_iff d cs).0 again)))
      | inr later ↦ rw again ((mem-distinct c cs).1 later)
    ]
    | inr new ↦ elim m [
      | inl same ↦ rw new (inl same)
      | inr later ↦ rw new (inr ((mem-distinct c cs).1 later))
    ]
  ],
)

mem-insert_by_value :
    (c d : ConnectorCapability) (cs : List ConnectorCapability)
    → (c ∈ insert_by_value d cs) ↔ (c ∈ (d ∷ cs))
unfolding insert_by_value
mem-insert_by_value c d [] = (λ m. m, λ m. m)
mem-insert_by_value c d (e ∷ cs) = (
  λ m. ground (arith, (mem-insert_by_value c d cs).0),
  λ m. ground (arith, (mem-insert_by_value c d cs).1),
)

mem-sort_by_value :
    (c : ConnectorCapability) (cs : List ConnectorCapability) → (c ∈ sort_by_value cs) ↔ (c ∈ cs)
unfolding sort_by_value
mem-sort_by_value c [] = (λ m. m, λ m. m)
mem-sort_by_value c (d ∷ cs) = (
  λ m. ground (arith, (mem-insert_by_value c d (sort_by_value cs)).0 m, (mem-sort_by_value c cs).0),
  λ m. (mem-insert_by_value c d (sort_by_value cs)).1 (ground (arith, (mem-sort_by_value c cs).1)),
)

-- The installation is on, it supports and enables the capability, and policy allows it or names no
-- capability at all.
pub record IsEffective (installation : ConnectorInstallation) (c : ConnectorCapability)
    : Type 0 where
  pub enabled : installation.enabled ≡ true
  pub supported : c ∈ installation.supported_capabilities
  pub turned_on : c ∈ installation.enabled_capabilities
  pub allowed :
      (c ∈ installation.policy_allowed_capabilities)
      ⊎ (installation.policy_allowed_capabilities ≡ [])

allowed-cases :
    (c : ConnectorCapability) (allowed supported : List ConnectorCapability)
    → c ∈ supported
    → (c ∈ or_supported allowed supported) ↔ ((c ∈ allowed) ⊎ (allowed ≡ []))
allowed-cases c [] supported m = (λ _. inr refl, λ _. m)
allowed-cases c (d ∷ allowed) supported m =
    (λ h. inl h, λ h. elim h [ inl named ↦ named | inr none_named ↦ absurd (ground arith) ])

effective→IsEffective :
    (installation : ConnectorInstallation) (c : ConnectorCapability)
    → c ∈ effective_capabilities installation
    → IsEffective installation c
unfolding effective_capabilities
effective→IsEffective installation c m = elim (Bool-cases installation.enabled) [
  | inr off ↦ absurd (rw off at m)
  | inl on ↦
      let allowed =
        or_supported installation.policy_allowed_capabilities installation.supported_capabilities in
      let (among, passes) =
        mem_of_mem-filter
          (λ d. has_capability d installation.enabled_capabilities && has_capability d allowed) c
          (distinct installation.supported_capabilities) ((mem-sort_by_value c _).0 (rw on at m)) in
      let supported = (mem-distinct c installation.supported_capabilities).0 among in
      let (turned_on, is_allowed) =
        and_true (has_capability c installation.enabled_capabilities) (has_capability c allowed)
          passes in
      record {
        enabled = on;
        supported = supported;
        turned_on = (has_capability_iff c installation.enabled_capabilities).0 turned_on;
        allowed =
            (allowed-cases c installation.policy_allowed_capabilities
                installation.supported_capabilities supported).0
              ((has_capability_iff c allowed).0 is_allowed);
      }
]

IsEffective→effective :
    (installation : ConnectorInstallation) (c : ConnectorCapability)
    → IsEffective installation c
    → c ∈ effective_capabilities installation
unfolding effective_capabilities
IsEffective→effective installation c e =
    let allowed =
      or_supported installation.policy_allowed_capabilities installation.supported_capabilities in
    let turned_on = (has_capability_iff c installation.enabled_capabilities).1 e.turned_on in
    let is_allowed = (has_capability_iff c allowed).1 (
      (allowed-cases c installation.policy_allowed_capabilities installation.supported_capabilities
          e.supported).1
        e.allowed) in
    rw e.enabled (
      (mem-sort_by_value c _).1 (
        mem-filter_of_mem
          (λ d. has_capability d installation.enabled_capabilities && has_capability d allowed) c
          (distinct installation.supported_capabilities)
          ((mem-distinct c installation.supported_capabilities).1 e.supported)
          (rw (turned_on, is_allowed) refl)))

-- The effective capabilities of an installation whose policy names some are the intersection of the
-- supported, the enabled and the allowed ones, and nothing while the installation is off.
pub effective_capabilities_iff :
    (installation : ConnectorInstallation) (c : ConnectorCapability)
    → installation.policy_allowed_capabilities ≢ []
    → (c ∈ effective_capabilities installation) ↔ (
        (installation.enabled ≡ true)
        × (c ∈ installation.supported_capabilities)
        × (c ∈ installation.enabled_capabilities)
        × (c ∈ installation.policy_allowed_capabilities))
effective_capabilities_iff installation c names_some = (
  λ m.
      let e = effective→IsEffective installation c m in
      let allowed : c ∈ installation.policy_allowed_capabilities = elim e.allowed [
        | inl named ↦ named
        | inr none_named ↦ absurd (names_some none_named)
      ] in
      (e.enabled, e.supported, e.turned_on, allowed),
  λ h.
      let (on, supported, turned_on, named) = h in
      IsEffective→effective installation c (record {
        enabled = on;
        supported = supported;
        turned_on = turned_on;
        allowed = inl named;
      }),
)

-- No connector is built from an installation that may not read products.
pub require_product_catalog-IsEffective :
    (repr : Json → Text) (settings : CatalogSettings) (installation : Option ConnectorInstallation)
    (connector : Connector)
    → require_product_catalog repr settings installation ≡ ok connector
    → IsEffective (or_default repr settings installation) ConnectorCapability.product_catalog_read
      × ((or_default repr settings installation).connector_key ≡ codes "woocommerce")
unfolding require_product_catalog
require_product_catalog-IsEffective repr settings installation connector h =
    let configured = or_default repr settings installation in
    elim (Bool-cases (
      has_capability ConnectorCapability.product_catalog_read
        (effective_capabilities configured))) [
          | inr missing ↦ absurd (ok_of_err (rw missing at h))
          | inl present ↦
              elim (Bool-cases (str_eq configured.connector_key (codes "woocommerce"))) [
                | inr unknown ↦ absurd (ok_of_err (rw (present, unknown) at h))
                | inl known ↦ (
                  effective→IsEffective configured ConnectorCapability.product_catalog_read
                      ((has_capability_iff _ (effective_capabilities configured)).0 present),
                  (str_eq_iff configured.connector_key (codes "woocommerce")).0 known,
                )
              ]
        ]
  where
    ok_of_err : err Failure.value_error ≡ ok connector → ⊥
    ok_of_err e = ground arith
