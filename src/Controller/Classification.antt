-- ===== src/Controller/Classification.antt =====
-- keck-controller/src/application.rs: which of the three categories a namespace is in.
use keck.Base.{String, string_eq, Bool, true, false, Option, none, some, List, contains}
use keck.Base.Maps.{Map, get}

-- `ApplicationDef` of the aggregator
pub record ApplicationDef : Type 0 where
  pub name : String
  pub namespaces : List String
  pub label_selectors : List (Map String String)

pub record ClassificationData : Type 0 where
  pub co_namespaces : Map String String
  pub operator_namespaces : List String
  pub app_defs : List ApplicationDef

abbrev category_of : Option String → Bool → String × Option String
category_of (some co) operator = ("platform", some co)
category_of none true = ("operator", none)
category_of none false = ("application", none)

unfoldable pub classify : ClassificationData → String → String × Option String
classify d ns = category_of (get ns d.co_namespaces) (contains d.operator_namespaces ns)
