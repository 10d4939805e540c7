-- ===== src/Plan/Risk.antt =====
-- internal/plan/run_grant.go: the risk levels and what may merge without a human.
use mcpx.Base.{ℕ, Bool, false, ◌||◌, if◌then◌else◌, ◌==◌, leb, Bytes, codes, str_eq}

unfoldable pub risk_rank : Bytes → ℕ
risk_rank level =
    if str_eq level (codes "routine")
    then 1
    else if str_eq level (codes "standard")
    then 2
    else if str_eq level (codes "review")
    then 3
    else if str_eq level (codes "signoff")
    then 4
    else 0

unfoldable pub auto_merge_allowed : Bytes → Bytes → Bool
unfolding risk_rank
auto_merge_allowed risk ceiling =
    if str_eq risk (codes "signoff") || risk_rank risk == 0 || risk_rank ceiling == 0
    then false
    else leb (risk_rank risk) (risk_rank ceiling)
