-- ===== src/Domain/Catalog.antt =====
-- src/wootpilot/domain/models/catalog.py: the product facts that policy and prompts may see.
use Prim.Native.Nat.{ℕ}
use mathlib.Core.Bool.{Bool}
use mathlib.Core.Option.{Option, none}
use mathlib.Core.List.{List, [], ◌∷◌}
use wootpilot.Prelude.Text.{Text, codes}

pub data RiskSignal : Type 0 where
  catalog_load_failed catalog_no_match : RiskSignal

abbrev pub risk_value : RiskSignal → Text
risk_value RiskSignal.catalog_load_failed = codes "catalog.load_failed"
risk_value RiskSignal.catalog_no_match = codes "catalog.no_match"

-- Minor units may be negative: `negative` is the sign of an amount that is not 0.
pub record Money : Type 0 where
  pub currency : Text
  pub negative : Bool
  pub minor_units : ℕ

pub record PriceSnapshot : Type 0 where
  pub amount : Option Money
  pub display_text : Option Text
  pub can_mention : Bool
  pub quote_required : Bool
  pub hidden : Bool
  pub stale : Bool
  pub reason : Option Text

pub record AvailabilitySnapshot : Type 0 where
  pub is_available : Option Bool
  pub display_text : Option Text
  pub can_mention : Bool
  pub hidden_quantity : Bool
  pub uncertain_reasons : List Text

pub record ProductSnapshot : Type 0 where
  pub product_id : Text
  pub sku : Option Text
  pub name : Text
  pub permalink : Option Text
  pub categories : List Text
  pub tags : List Text
  pub fitment_hints : List Text
  pub price : PriceSnapshot
  pub availability : AvailabilitySnapshot
  pub risk_signals : List Text

pub record CatalogContext : Type 0 where
  pub query : Text
  pub products : List ProductSnapshot
  pub risk_signals : List Text
  pub snapshot_id : Option Text

-- CatalogContext(query="")
abbrev pub empty_catalog : CatalogContext
empty_catalog = record { query = []; products = []; risk_signals = []; snapshot_id = none }

-- The context that stands for a connector failure in _load_catalog_context.
abbrev pub failed_catalog : Text → CatalogContext
failed_catalog query = record {
  query = query;
  products = [];
  risk_signals = risk_value RiskSignal.catalog_load_failed ∷ [];
  snapshot_id = none;
}

pub record ProductCategory : Type 0 where
  pub category_id : Text
  pub name : Text
  pub slug : Option Text
  pub parent_id : Option Text

pub record ProductSearchQuery : Type 0 where
  pub query : Text
  pub limit : ℕ
  pub categories : List Text
  pub tags : List Text
  pub fitment_hints : List Text
