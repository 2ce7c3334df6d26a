-- ===== src/Examples/Drivers.antt =====
-- The theorems about drivers and failures at concrete inputs.
use managed_agents.Common.{ℕ, ◌*◌, ◌^◌, ◌≤◌, ◌≡◌, refl, ok, none, some, [], true, arith}
use managed_agents.Runtime.Storage.{processing_status, fail_processing, reset_processing}
use managed_agents.Runtime.Inbox.Queue.{waiting}
use managed_agents.Runtime.Inbox.Progress.{progress-waiting}
use managed_agents.Driver.Policy.{default_driver_policy, check_policy, policy_value, backoff}
use managed_agents.Driver.State.{SessionDriver}
use managed_agents.Driver.Bounds.{backoff-bounds}
use Prim.Native.Nat.{min}
use managed_agents.Examples.Toy.{fresh, one_input}

default-checked : check_policy default_driver_policy ≡ ok tt
unfolding check_policy policy_value
default-checked = refl

backoff-bounds_example :
    (min 60000 (500 * 2 ^ 3) ≤ 2 * backoff 4503599627370496 default_driver_policy 4)
    × (backoff 4503599627370496 default_driver_policy 4 ≤ 60000)
    × (backoff 4503599627370496 default_driver_policy 4 ≤ 500 * 2 ^ 3)
    × (1 ≤ backoff 4503599627370496 default_driver_policy 4)
backoff-bounds_example =
    backoff-bounds 4503599627370496 default_driver_policy 3 default-checked (omega arith)
      (omega arith)

abbrev waiting_driver : SessionDriver ℕ ℕ
waiting_driver = record {
  runtime = record fresh { store = one_input };
  alarm = none;
  receipt_input = none;
  receipts = [];
}

-- the loop finds the time gone before its first round
abbrev left : SessionDriver ℕ ℕ
left = record waiting_driver { alarm = some 101 }

progress-waiting_example :
    (waiting
        (fail_processing (processing_status one_input.inbox) 900 true "Error: no" one_input.inbox)
      ≡ waiting one_input.inbox)
    × (waiting (reset_processing one_input.inbox) ≡ waiting one_input.inbox)
progress-waiting_example =
    progress-waiting (processing_status one_input.inbox) 900 true "Error: no" one_input.inbox
