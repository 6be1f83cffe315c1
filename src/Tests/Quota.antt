-- ===== src/Tests/Quota.antt =====
-- Runs of the counters and of the quota states.
use wireguard_panel.Base.{some, arith}
use wireguard_panel.Base.Int.{pos}
use wireguard_panel.Quota.{quota_state}
use wireguard_panel.Quota.Laws.{Grade, quota_state-Grade}

quota_state-Grade_example : Grade 95 100 (quota_state (pos 95) (some (pos 100))).0
quota_state-Grade_example = quota_state-Grade 95 100 (omega arith)
