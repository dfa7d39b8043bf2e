-- ===== src/Orchestration/Compensation.antt =====
-- src/orchestration/compensation.py: whether an operation is rolled back or compensated.

pub data OperationClass : Type 0 where
  uncommitted_transaction externally_observed : OperationClass

pub data Outcome : Type 0 where
  rolled_back compensated : Outcome

unfoldable pub dispatch : OperationClass → Outcome
dispatch OperationClass.uncommitted_transaction = Outcome.rolled_back
dispatch OperationClass.externally_observed = Outcome.compensated
