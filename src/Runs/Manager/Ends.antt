-- ===== src/Runs/Manager/Ends.antt =====
-- How a run ends, and what a restart of the Runtime leaves.
use agent_shell.Base.{
  ℤ, pos, negsuc, Text, contains, zero, suc, ◌≡◌, refl, ◌≢◌, ◌↔◌, ◌⊎◌, Bool, true, false, arith,
  contains-drop_id_self,
}
use agent_shell.Runs.Manager.{Manager, forget, end_status, nonzero}
use agent_shell.Runs.Run.{RunStatus, completed, failed, stopped, killed}

-- Nothing of the manager's maps holds the id.
pub record IsForgotten (id : Text) (m : Manager) : Type 0 where
  pub not_stopping : contains m.stopping_ids id ≡ false
  pub not_killed : contains m.force_killed id ≡ false
  pub no_cmd : contains m.cmds id ≡ false

pub forget-IsForgotten : (id : Text) (m : Manager) → IsForgotten id (forget id m)
forget-IsForgotten id m = record {
  not_stopping = contains-drop_id_self id m.stopping_ids;
  not_killed = contains-drop_id_self id m.force_killed;
  no_cmd = contains-drop_id_self id m.cmds;
}

-- The ways a run ends: killed where a stop was asked for and the kill timer fired, stopped where it
-- did not, and else failed or completed by the wait and the exit code.
pub record EndsAs (m : Manager) (id : Text) (bad : Bool) (code : ℤ) (s : RunStatus) : Type 0 where
  pub kills :
      (s ≡ killed) ↔ ((contains m.stopping_ids id ≡ true) × (contains m.force_killed id ≡ true))
  pub stops :
      (s ≡ stopped) ↔ ((contains m.stopping_ids id ≡ true) × (contains m.force_killed id ≡ false))
  pub fails :
      (s ≡ failed) ↔ ((contains m.stopping_ids id ≡ false) × ((bad ≡ true) ⊎ (code ≢ pos 0)))
  pub completes :
      (s ≡ completed) ↔ ((contains m.stopping_ids id ≡ false) × (bad ≡ false) × (code ≡ pos 0))

pub nonzero_iff : (code : ℤ) → (nonzero code ≡ true) ↔ (code ≢ pos 0)
nonzero_iff (pos zero) = ((λ e. cc), λ h. absurd (h refl))
nonzero_iff (pos (suc n)) = ((λ e h. cc), λ h. refl)
nonzero_iff (negsuc n) = ((λ e h. cc), λ h. refl)

pub nonzero-false : (code : ℤ) → (nonzero code ≡ false) ↔ (code ≡ pos 0)
nonzero-false (pos zero) = ((λ e. refl), λ h. refl)
nonzero-false (pos (suc n)) = ((λ e. cc), λ h. cc)
nonzero-false (negsuc n) = ((λ e. cc), λ h. cc)

pub end_status-EndsAs :
    (m : Manager) (id : Text) (bad : Bool) (code : ℤ)
    → EndsAs m id bad code
        (end_status (contains m.stopping_ids id) (contains m.force_killed id) bad code)
end_status-EndsAs m id bad code = record {
  kills = ground (arith);
  stops = ground (arith);
  fails = ground (arith, nonzero_iff code, nonzero-false code);
  completes = ground (arith, nonzero_iff code, nonzero-false code);
}
