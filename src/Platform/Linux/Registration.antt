-- ===== src/Platform/Linux/Registration.antt =====
-- What installing the service leaves.
use stdiod.Base.{String, ◌≡◌, some, [], ◌∷◌, ok}
use stdiod.Platform.Linux.{Os, Service, unit_name, render_unit}

module _ (os : Os) where
  -- The unit is complete and the calls were made, when registering succeeded.
  record IsRegistered (before after : Service) : Type 0 where
    pub binary : String
    pub log : String
    pub found : os.current_exe ≡ ok binary
    pub logs : os.daemon_log_file ≡ ok log
    pub unit : after.unit ≡ some (render_unit binary log)
    pub calls :
        after.calls ≡ ("enable" ∷ "--now" ∷ unit_name ∷ []) ∷ ("daemon-reload" ∷ []) ∷ before.calls
