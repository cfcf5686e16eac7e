-- ===== src/Config/Examples.antt =====
-- The default retry policy.
use distsync.Common.{◌≤◌, arith}
use distsync.Config.{RetryPolicy}
use distsync.Config.Delay.{base_of, max_of}

-- The defaults.
abbrev policy : RetryPolicy
policy = record { base = 0; max = 0 }

ordered : base_of policy ≤ max_of policy
unfolding base_of max_of
ordered = omega arith
