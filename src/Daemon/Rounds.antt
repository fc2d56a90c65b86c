-- ===== src/Daemon/Rounds.antt =====
-- The loop of `run` from round to round.
use stdiod.Base.{◌≤◌, ◌≡◌}
use stdiod.Supervisor.{Supervisor}
use stdiod.Supervisor.Current.{IsCurrent}
use stdiod.Daemon.{backoff_min, backoff_max}
use stdiod.Daemon.Session.{Environment, Loop}
use stdiod.Daemon.Stores.{account_path}

-- The store is the one of the account that the loop stands on, by its file, the children agree with
-- it, and the backoff is between 1 and 30 seconds.
pub record IsSound (env : Environment) (l : Loop) : Type 0 where
  pub current : IsCurrent l.supervisor
  pub own_store : l.supervisor.env_store.path ≡ account_path env l.resolved
  pub not_short : backoff_min ≤ l.backoff
  pub not_long : l.backoff ≤ backoff_max
