-- ===== src/Api/Alerting.antt =====
-- api/v1/config.go: alerting rules.
use telemetry_operator.Base.{ℤ, String, Bool, Option, List}

pub record CheckSourceSpec : Type 0 where
  pub check_id : String

pub record LogPatternSourceSpec : Type 0 where
  pub severities : List String
  pub min_count : Option ℤ
  pub max_alerts_per_app : Option ℤ
  pub evaluate_with_ai : Option Bool

pub record KubernetesEventsSourceSpec : Type 0 where
  pub min_count : Option ℤ
  pub max_alerts_per_app : Option ℤ
  pub evaluate_with_ai : Option Bool

pub record PromQlSourceSpec : Type 0 where
  pub expression : String

pub record AlertSourceSpec : Type 0 where
  pub type : String
  pub check : Option CheckSourceSpec
  pub log_pattern : Option LogPatternSourceSpec
  pub kubernetes_events : Option KubernetesEventsSourceSpec
  pub prom_ql : Option PromQlSourceSpec

pub record AppSelectorSpec : Type 0 where
  pub type : String
  pub categories : List String
  pub application_id_patterns : List String

pub record AlertTemplatesSpec : Type 0 where
  pub summary : String
  pub description : String

pub record AlertingRuleSpec : Type 0 where
  pub id : String
  pub name : Option String
  pub source : Option AlertSourceSpec
  pub selector : Option AppSelectorSpec
  pub severity : Option String
  pub for : Option String
  pub keep_firing_for : Option String
  pub templates : Option AlertTemplatesSpec
  pub notification_category : Option String
  pub enabled : Option Bool
