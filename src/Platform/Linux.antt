-- ===== src/Platform/Linux.antt =====
-- crates/edison-stdiod/src/platform/linux.rs: the systemd user unit. The files that matter are the unit and
-- its temporary copy; what each call of `systemctl` and of the file system comes to is the argument `Os`.
pub mod Settings
pub mod Registration
pub mod Removal
pub mod Tests
use stdiod.Base.{
  ℕ, ◌+◌, String, Bool, true, false, not, Option, none, some, List, [], ◌∷◌, ◌++◌, Result, ok, err,
  or_fail, map_err, ◌>>=◌, ◌>>◌, if◌then◌else◌, ◌==◌,
}
use stdiod.Base.Text.{append, contains, trim}
use stdiod.Config.{PersistedConfig, FileRead, load_from}
use stdiod.Config.Backend.{Url, ensure_installable}

abbrev pub unit_name : String
unit_name = "edison-stdiod.service"

-- `process::Output`
pub record Output : Type 0 where
  pub success : Bool
  pub stdout : String
  pub stderr : String

-- The unit file, its temporary copy, and the calls of `systemctl` so far, the last one first.
pub record Service : Type 0 where
  pub unit : Option String
  pub temporary : Option String
  pub calls : List (List String)

-- The host: its answers to `systemctl`, by how many calls came before, and whether the steps on files
-- succeed. What a write that fails leaves of the temporary copy is not kept.
pub record Os : Type 0 where
  pub home_dir : Option String
  pub systemctl : ℕ → List String → Result String Output
  pub current_exe : Result String String
  pub daemon_log_file : Result String String
  pub make_log_dir : Result String Unit
  pub make_unit_dir : Result String Unit
  pub write_temporary : Result String Unit
  pub rename_temporary : Result String Unit
  pub remove_unit : Option String

abbrev pub Step : Type 0 → Type 0
Step A = Service → Result String A × Service

-- `?`: what follows a step that succeeded.
unfoldable pub then_step :
    {A B : Type 0} → Result String A × Service → (A → Step B) → Result String B × Service
then_step (ok a, s) next = next a s
then_step (err e, s) next = (err e, s)

-- A value that does not depend on the service.
abbrev pub pure_step : {A : Type 0} → Result String A → Step A
pure_step r s = (r, s)

count_calls : List (List String) → ℕ
count_calls [] = 0
count_calls (c ∷ more) = count_calls more + 1

unfoldable pub render_unit : (binary log : String) → String
render_unit binary log =
    append
      "[Unit]\nDescription=Edison Watch stdio tunnel daemon\nDocumentation=https://edison.watch\nAfter=network-online.target\nWants=network-online.target\n\n[Service]\nType=simple\nExecStart=\""
      (append binary (
        append
          "\" run\nRestart=on-failure\nRestartSec=5\nEnvironment=PATH=%h/.local/bin:%h/bin:/usr/local/bin:/usr/bin:/bin:/usr/local/sbin:/usr/sbin:/sbin\nStandardOutput=append:"
          (append log (
            append "\nStandardError=append:"
              (append log "\n\n[Install]\nWantedBy=default.target\n")))))

module _ (os : Os) where
  -- `systemctl --user <args>`
  unfoldable pub systemctl : List String → Step Output
  unfolding count_calls
  systemctl args s = (os.systemctl (count_calls s.calls) args, record s { calls = args ∷ s.calls })

  answers : Result String Output → Bool
  answers (ok out) = not (contains "Failed to connect to bus" out.stderr)
  answers (err e) = false

  unfoldable pub systemd_user_available : Service → Bool × Service
  unfolding answers
  systemd_user_available s = let r = systemctl ("is-system-running" ∷ []) s in (answers r.0, r.1)

  unfoldable pub unit_path : Result String String
  unit_path = do
    home ← or_fail os.home_dir "HOME not set"
    _ ← os.make_unit_dir
    ok (append home (append "/.config/systemd/user/" unit_name))

  -- The temporary file is written, then renamed over the unit.
  unfoldable pub write_unit : String → Step Unit
  write_unit body s = elim os.write_temporary [
    | err e ↦ (err e, s)
    | ok _ ↦ elim os.rename_temporary [
      | err e ↦ (err e, record s { temporary = some body })
      | ok _ ↦ (ok tt, record s { unit = some body; temporary = none })
    ]
  ]

  -- What the unit is made from.
  unfoldable pub unit_body : Result String String
  unit_body = do
    binary ← os.current_exe
    log ← os.daemon_log_file
    _ ← os.make_log_dir
    _ ← unit_path
    ok (render_unit binary log)

  unfoldable pub enable : Step Unit
  enable s = then_step (systemctl ("enable" ∷ "--now" ∷ unit_name ∷ []) s) λ out s'.
      if out.success then (ok tt, s') else (
        err (
            append "systemctl --user enable --now edison-stdiod.service failed: "
              (trim out.stderr)),
        s',
      )

  -- Once the configuration is checked and systemd answers. A failed reload is only logged.
  unfoldable pub register : Step Unit
  register s = then_step (pure_step unit_body s) λ body s1.
      then_step (write_unit body s1)
        λ _ s2. then_step (systemctl ("daemon-reload" ∷ []) s2) λ _ s3. enable s3

  unfoldable pub install : (String → Option Url) → String → FileRead → Step Unit
  install parse path file s =
      then_step (pure_step (load_from path file >>= ensure_installable parse) s) λ _ s1.
        let (available, s2) = systemd_user_available s1 in
        if available
        then register s2
        else (err "no systemd user instance is available on this system", s2)

  -- `disable --now`, if there is a bus; its failure is ignored, but not that it could not be run.
  unfoldable pub disable : Step Unit
  disable s =
      let (available, s1) = systemd_user_available s in
      if available
      then then_step (systemctl ("disable" ∷ "--now" ∷ unit_name ∷ []) s1) (λ _ s2. (ok tt, s2))
      else (ok tt, s1)

  -- `remove_file`, with a missing file as success.
  unfoldable pub remove_found : Option String → Step Unit
  remove_found none s = (ok tt, s)
  remove_found (some body) s = elim os.remove_unit [
    | some e ↦ (err e, s)
    | none ↦ (ok tt, record s { unit = none })
  ]

  unfoldable pub remove_unit : Step Unit
  remove_unit s = remove_found s.unit s

  unfoldable pub reload_after : Step Unit
  reload_after s =
      let (available, s1) = systemd_user_available s in
      if available then (ok tt, (systemctl ("daemon-reload" ∷ []) s1).1) else (ok tt, s1)

  unfoldable pub uninstall : Step Unit
  uninstall s = then_step (disable s) λ _ s1.
      then_step (pure_step unit_path s1) λ _ s2. then_step (remove_unit s2) λ _ s3. reload_after s3

  unfoldable pub is_installed : Service → Bool
  is_installed s = elim os.home_dir [
    | none ↦ false
    | some home ↦ elim s.unit [ none ↦ false | some body ↦ true ]
  ]

  unfoldable pub is_running : Step Bool
  is_running s =
      let (available, s1) = systemd_user_available s in
      if available
      then then_step (systemctl ("is-active" ∷ unit_name ∷ []) s1)
          (λ out s2. (ok (trim out.stdout == "active"), s2))
      else (ok false, s1)
