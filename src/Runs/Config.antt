-- ===== src/Runs/Config.antt =====
-- Config and the defaults that NewManager of internal/runtime/manager.go fills in, in nanoseconds. The
-- field data_dir is the directory of the database and the logs.
use agent_shell.Base.{ℤ, pos, negsuc, Text, ℕ, zero, suc, ◌*◌}

pub record Config : Type 0 where
  pub data_dir : Text
  pub stop_grace : ℤ
  pub poll_interval : ℤ
  pub external_port_timeout : ℤ

abbrev seconds : ℕ → ℤ
seconds n = pos (n * 1000000000)

abbrev or_default : ℤ → ℤ → ℤ
or_default (pos zero) d = d
or_default (pos (suc n)) d = pos (suc n)
or_default (negsuc n) d = d

unfoldable with_defaults_of_manager : Config → Config
with_defaults_of_manager cfg = record cfg {
  stop_grace = or_default cfg.stop_grace (seconds 5);
  poll_interval = or_default cfg.poll_interval (seconds 2);
  external_port_timeout = or_default cfg.external_port_timeout (seconds 10);
}
