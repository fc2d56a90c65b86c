-- ===== src/SecureFile.antt =====
-- crates/edison-stdiod/src/secure_file.rs: the replacement of a private file, as calls of a file
-- system. A path is its name in the directory, which all the paths of one call share.
pub mod Calls
pub mod Pending
pub mod Atomic
pub mod Aside
pub mod Backup
pub mod Faults
pub mod Tests
use stdiod.Base.{
  ℕ, zero, suc, ◌+◌, String, Bool, ◌||◌, Option, none, some, List, [], ◌∷◌, Result, ok, err,
  if◌then◌else◌, ◌==◌,
}
use stdiod.Base.Text.{append}
use stdiod.Base.Text.Decimal.{decimal}

pub data IoError : Type 0 where
  already_exists permission_denied not_found other_error : IoError

abbrev pub Files : Type 0
Files = String → Option String

-- The directory, what it held before each change, and the counter `NEXT_TEMP_ID`.
pub record Disk : Type 0 where
  pub files : Files
  pub past : List Files
  pub next_temp_id : ℕ
  pub calls : ℕ

-- Which call of the operating system fails, and what a write that fails leaves in its file.
pub record Os : Type 0 where
  pub fault : ℕ → Option IoError
  pub torn : ℕ → String
  pub process_id : ℕ

abbrev pub Outcome : Type 0
Outcome = Result IoError Unit × Disk

-- What follows a call, by its outcome.
abbrev pub after :
    {A B : Type 0} → Result IoError A × Disk → (A → Disk → B) → (IoError → Disk → B) → B
after (ok a, d) on_ok on_err = on_ok a d
after (err e, d) on_ok on_err = on_err e d

unfoldable pub update : String → Option String → Files → Files
update path contents files p = if p == path then contents else files p

-- A call that changes the directory, and one that leaves it.
unfoldable pub changed : Files → Disk → Disk
changed files d = record d { files = files; past = d.files ∷ d.past; calls = d.calls + 1 }

unfoldable pub unchanged : Disk → Disk
unchanged d = record d { calls = d.calls + 1 }

abbrev pub retry? : IoError → Bool
retry? already_exists = Bool.true
retry? permission_denied = Bool.false
retry? not_found = Bool.false
retry? other_error = Bool.false

abbrev pub vanished? : IoError → Bool
vanished? already_exists = Bool.false
vanished? permission_denied = Bool.false
vanished? not_found = Bool.true
vanished? other_error = Bool.false

abbrev pub in_the_way? : IoError → Bool
in_the_way? already_exists = Bool.true
in_the_way? permission_denied = Bool.true
in_the_way? not_found = Bool.false
in_the_way? other_error = Bool.false

module _ (os : Os) where
  -- A call that only succeeds or fails: making directories, flushing a file.
  unfoldable pub plain_call : Disk → Outcome
  plain_call d = elim (os.fault d.calls) [
    | some e ↦ (err e, unchanged d)
    | none ↦ (ok tt, unchanged d)
  ]

  -- `create_new(true).open(path)`
  unfoldable pub create_new : String → Disk → Outcome
  create_new path d = elim (os.fault d.calls) [
    | some e ↦ (err e, unchanged d)
    | none ↦ elim (d.files path) [
      | some _ ↦ (err already_exists, unchanged d)
      | none ↦ (ok tt, changed (update path (some "") d.files) d)
    ]
  ]

  unfoldable pub write_all : String → String → Disk → Outcome
  write_all path body d = elim (os.fault d.calls) [
    | some e ↦ (err e, changed (update path (some (os.torn d.calls)) d.files) d)
    | none ↦ (ok tt, changed (update path (some body) d.files) d)
  ]

  -- `fs::rename`, which replaces a file at `to`.
  unfoldable pub rename : String → String → Disk → Outcome
  rename from to d = elim (os.fault d.calls) [
    | some e ↦ (err e, unchanged d)
    | none ↦ elim (d.files from) [
      | none ↦ (err not_found, unchanged d)
      | some contents ↦ (ok tt, changed (update from none (update to (some contents) d.files)) d)
    ]
  ]

  unfoldable pub remove_file : String → Disk → Outcome
  remove_file path d = elim (os.fault d.calls) [
    | some e ↦ (err e, unchanged d)
    | none ↦ elim (d.files path) [
      | none ↦ (err not_found, unchanged d)
      | some _ ↦ (ok tt, changed (update path none d.files) d)
    ]
  ]

  -- The name of a sibling file, by the number it takes from the counter.
  unfoldable pub sibling : String → ℕ → String → String
  sibling path id suffix = append "." (
      append path (
        append "."
          (append (decimal os.process_id) (append "." (append (decimal id) (append "." suffix))))))

  unfoldable pub unique_sibling_path : String → String → Disk → String × Disk
  unique_sibling_path path suffix d =
      (sibling path d.next_temp_id suffix, record d { next_temp_id = d.next_temp_id + 1 })

  -- The loop of `create_temp`, with the attempts left.
  unfoldable pub create_temp_from : ℕ → String → Disk → Result IoError String × Disk
  create_temp_from zero path d = (err other_error, d)
  create_temp_from (suc attempts) path d =
      let (tmp, d') = unique_sibling_path path "tmp" d in
      after (create_new tmp d') (λ _ next. (ok tmp, next))
        λ e next. elim (retry? e) [
          | Bool.true ↦ create_temp_from attempts path next
          | Bool.false ↦ (err e, next)
        ]

  unfoldable pub create_temp : String → Disk → Result IoError String × Disk
  create_temp path d = create_temp_from 32 path d

  -- `replace` on Unix.
  unfoldable pub replace_unix : String → String → Disk → Outcome
  replace_unix tmp path d = rename tmp path d

  -- The rest of `replace` on Windows once the old file is the backup.
  unfoldable pub install : String → String → String → Disk → Outcome
  install tmp path backup d =
      after (rename tmp path d) (λ _ next. (ok tt, (remove_file backup next).1))
        λ e next. (err e, (rename backup path next).1)

  -- The second rename on Windows, after the first said that a file is in the way.
  unfoldable pub set_aside : String → String → Disk → Outcome
  set_aside tmp path d =
      let (backup, d') = unique_sibling_path path "bak" d in
      after (rename path backup d') (λ _ next. install tmp path backup next)
        λ e next. elim (vanished? e) [
          | Bool.true ↦ rename tmp path next
          | Bool.false ↦ (err e, next)
        ]

  -- `replace` on Windows.
  unfoldable pub replace_windows : String → String → Disk → Outcome
  replace_windows tmp path d =
      after (rename tmp path d) (λ _ next. (ok tt, next))
        λ e next. elim (in_the_way? e) [
          | Bool.true ↦ set_aside tmp path next
          | Bool.false ↦ (err e, next)
        ]

  -- The temporary file is removed when a step after its creation failed.
  unfoldable pub clean_up : String → Outcome → Outcome
  clean_up tmp result = after result (λ _ d. (ok tt, d)) λ e d. (err e, (remove_file tmp d).1)

  module _ (replace : String → String → Disk → Outcome) where
    -- Once there is a temporary file.
    unfoldable pub fill_and_replace : String → String → String → Disk → Outcome
    fill_and_replace tmp path body d = clean_up tmp (
        after (write_all tmp body d)
          (λ _ d1. after (plain_call d1) (λ _ d2. replace tmp path d2) (λ e d2. (err e, d2)))
          λ e d1. (err e, d1))

    unfoldable pub write_private : String → String → Disk → Outcome
    write_private path body d =
        after (plain_call d)
          (λ _ d1.
            after (create_temp path d1) (λ tmp d2. fill_and_replace tmp path body d2)
              λ e d2. (err e, d2))
          λ e d1. (err e, d1)
