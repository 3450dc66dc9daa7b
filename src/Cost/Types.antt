-- ===== src/Cost/Types.antt =====
-- internal/cost/budget.go, decision.go, record.go and gate.go: the data of the gate.
-- Ids are numbers. The texts of the reasons are one constructor each.
use nexus_agent_demo.Prelude.{ℕ, Bool, Option, [], if◌then◌else◌}
use nexus_agent_demo.Prelude.Int.{ℤ, pos, leb_ℤ}
use nexus_agent_demo.Prelude.Text.{Text, codes, text_eq}
use nexus_agent_demo.Cost.Money.{Money}
use nexus_agent_demo.Cost.Prices.{MeterId, wildcard_subject}

-- `session_scope` carries the scope's reference.
pub data BudgetScope : Type 0 where
  tenant_scope : BudgetScope
  session_scope : ℕ → BudgetScope

pub record Budget : Type 0 where
  pub id : ℕ
  pub scope : BudgetScope
  pub ceiling : Money
  pub epoch : ℕ

pub data DecisionKind : Type 0 where
  allow refuse_ceiling degrade skip : DecisionKind

pub data Reason : Type 0 where
  no_budget price_book_unavailable cannot_price session_lookup_failed tenant_lookup_failed : Reason
  session_ceiling_exceeded no_counter epoch_unavailable check_failed epoch_changed : Reason
  tenant_ceiling_exceeded record_failed soft_threshold session_room tenant_room both_room : Reason

pub record Decision : Type 0 where
  pub kind : DecisionKind
  pub reason : Reason
  pub budget_id : Option ℕ
  pub reserved : Money

pub record CostRecord : Type 0 where
  pub reservation_id : Option ℕ
  pub meter : MeterId
  pub quantity : ℤ
  pub unit : Text
  pub amount : Money
  pub model_id : Text
  pub unreported : Bool

pub data Purpose : Type 0 where
  turn compaction safety_model hook_prompt judge title embedding : Purpose

pub record ReserveRequest : Type 0 where
  pub tenant : ℕ
  pub session : ℕ
  pub model_id : Text
  pub purpose : Purpose

pub record Reservation : Type 0 where
  pub id : ℕ
  pub tenant : ℕ
  pub session : ℕ
  pub model_id : Text
  pub decision : Decision
  pub session_budget : Option Budget
  pub tenant_budget : Option Budget
  pub tenant_epoch : ℕ

pub record GateConfig : Type 0 where
  pub currency : Text
  pub max_input_token_estimate : ℤ
  pub max_output_token_estimate : ℤ
  pub max_embedding_token_estimate : ℤ
  pub degrade_threshold_percent : ℤ

abbrev positive_or : ℤ → ℕ → ℤ
positive_or z d = if leb_ℤ z (pos 0) then pos d else z

unfoldable pub with_defaults : GateConfig → GateConfig
with_defaults c = record {
  currency = if text_eq c.currency [] then codes "USD" else c.currency;
  max_input_token_estimate = positive_or c.max_input_token_estimate 8000;
  max_output_token_estimate = positive_or c.max_output_token_estimate 4096;
  max_embedding_token_estimate = positive_or c.max_embedding_token_estimate 8000;
  degrade_threshold_percent = positive_or c.degrade_threshold_percent 80;
}

-- The subject of a model: the wildcard for no model.
unfoldable pub subject_of : Text → Text
subject_of model_id = if text_eq model_id [] then wildcard_subject else model_id
