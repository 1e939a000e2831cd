-- ===== src/Setup/Dirs.antt =====
-- model/dao/dirutils.cpp: the checks of a directory and of a file. A result `ok` is the code 0.
use simple_task_queue.Common.{
  refl, ◌≡◌, Bool, true, false, if◌then◌else◌, not, Str, is_empty, Bool-cases, inl, inr,
}
use simple_task_queue.Exec.{Result, ok, err, Ends}

-- std::filesystem, with an error as a false answer.
pub record Files : Type 1 where
  pub Disk : Type 0
  pub exists : Str → Disk → Bool
  pub is_directory : Str → Disk → Bool
  pub is_regular_file : Str → Disk → Bool
  pub create_directory : Str → Disk → Bool × Disk

unfoldable after_create_directory : {D : Type 0} → Bool × D → Result (Unit {0}) × D
after_create_directory (true, d) = (ok tt, d)
after_create_directory (false, d) = (err 1, d)

module _ (F : Files) where
  unfoldable pub verify_dir : Str → F.Disk → Result (Unit {0}) × F.Disk
  unfolding after_create_directory
  verify_dir path d =
      if is_empty path
      then (err 1, d)
      else if not (F.exists path d)
      then after_create_directory (F.create_directory path d)
      else if not (F.is_directory path d)
      then (err 1, d)
      else (ok tt, d)

  unfoldable pub verify_file : Str → F.Disk → Result (Unit {0}) × F.Disk
  verify_file path d =
      if is_empty path
      then (err 1, d)
      else if not (F.exists path d)
      then (err 1, d)
      else if not (F.is_regular_file path d)
      then (err 1, d)
      else (ok tt, d)

-- A directory that was created is there.
abbrev pub Creates : Files → Type 0
Creates F =
    (path : Str) (d : F.Disk)
    → (F.create_directory path d).0 ≡ true
    → F.is_directory path (F.create_directory path d).1 ≡ true

module _ (F : Files) (creates : Creates F) where
  created-directory :
      (path : Str) (r : Bool × F.Disk)
      → (r.0 ≡ true → F.is_directory path r.1 ≡ true)
      → Ends (λ c d. c ≡ 1) (λ _ d. F.is_directory path d ≡ true) (after_create_directory r)
  unfolding after_create_directory
  created-directory path (true, d) h = h refl
  created-directory path (false, d) h = refl

  -- verifyDir makes the directory if nothing is there, and succeeds only if it is there afterwards.
  pub verify_dir-Ends :
      (path : Str) (d : F.Disk)
      → Ends (λ c d. c ≡ 1) (λ _ d. F.is_directory path d ≡ true) (verify_dir F path d)
  unfolding verify_dir
  verify_dir-Ends path d = elim (Bool-cases (is_empty path)) [
    | inl e ↦ rw e refl
    | inr e ↦ rw e (elim (Bool-cases (F.exists path d)) [
      | inr g ↦ rw g (created-directory path (F.create_directory path d) (creates path d))
      | inl g ↦
          rw g (elim (Bool-cases (F.is_directory path d)) [ inl k ↦ rw k k | inr k ↦ rw k refl ])
    ])
  ]
