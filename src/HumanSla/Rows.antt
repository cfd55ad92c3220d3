-- ===== src/HumanSla/Rows.antt =====
-- human_sla_repository.py: reading a case after an update of its row.
use agent_orchestration_core.Common.{find_row-update_rows, ℕ, ◌≡◌, some, List}
use agent_orchestration_core.HumanSla.{SlaCase, get_case, update_case, is_row}

pub get_case-update_case :
    (case_id tenant : ℕ) (change : SlaCase → SlaCase) (cases : List SlaCase) (c : SlaCase)
    → ((d : SlaCase) → is_row case_id tenant (change d) ≡ is_row case_id tenant d)
    → get_case case_id tenant cases ≡ some c
    → get_case case_id tenant (update_case case_id tenant change cases) ≡ some (change c)
unfolding get_case update_case
get_case-update_case case_id tenant change cases c keeps h =
    find_row-update_rows (is_row case_id tenant) (is_row case_id tenant) change cases c keeps
      (λ d e. e) h
