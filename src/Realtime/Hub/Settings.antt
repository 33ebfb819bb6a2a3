-- ===== src/Realtime/Hub/Settings.antt =====
-- `Config`, its defaults and `New` of internal/realtime/hub.go, for the numbers. Durations are in
-- nanoseconds; none of the numbers is negative.
use chzzk_djclass_chat.Base.{ℕ, zero, suc, ◌*◌, ◌<◌, ◌≤◌, All, arith, length}
use chzzk_djclass_chat.Realtime.Hub.{Hub, Channel, new}
use chzzk_djclass_chat.Realtime.Hub.Steps.{Reach, run_counts}
use chzzk_djclass_chat.Resolver.{second}

pub record Settings : Type 0 where
  pub flush_interval : ℕ
  pub teardown_delay : ℕ
  pub min_backoff : ℕ
  pub max_backoff : ℕ
  pub max_per_channel : ℕ
  pub max_total : ℕ

-- `or0`, and the two tests for 0 beside it.
unfoldable pub or0 : ℕ → ℕ → ℕ
or0 zero default = default
or0 (suc n) default = suc n

unfoldable pub with_defaults : Settings → Settings
unfolding or0
with_defaults c = record {
  flush_interval = or0 c.flush_interval (250 * 1000000);
  teardown_delay = or0 c.teardown_delay (30 * second);
  min_backoff = or0 c.min_backoff second;
  max_backoff = or0 c.max_backoff (60 * second);
  max_per_channel = or0 c.max_per_channel 10;
  max_total = or0 c.max_total 1000;
}

-- `New`
unfoldable pub new_hub : Settings → Hub
unfolding with_defaults new
new_hub c = let d = with_defaults c in new d.max_per_channel d.max_total

or0-positive : (n default : ℕ) → 0 < default → 0 < or0 n default
unfolding or0
or0-positive zero default h = h
or0-positive (suc n) default h = omega arith

-- In every hub that the steps reach from one that `New` gives, whatever the settings, no channel
-- object has more subscriptions than its limit, and all of them no more than the total.
new_hub-bounded :
    (c : Settings) (h : Hub)
    → Reach (new_hub c) h
    → (h.total ≤ h.max_total) × All (λ (ch : Channel). length ch.subs ≤ h.max_per_channel) h.heap
unfolding new_hub with_defaults
new_hub-bounded c h r =
    let n =
      run_counts (or0 c.max_per_channel 10) (or0 c.max_total 1000)
        (or0-positive c.max_per_channel 10 (omega arith)) r in
    (n.1, n.2)
