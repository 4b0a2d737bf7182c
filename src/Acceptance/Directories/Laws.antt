-- ===== src/Acceptance/Directories/Laws.antt =====
-- Where the harness keeps its data.
use rollup_starter.Common.{
  Bool, true, List, [], ◌∷◌, false, Option, none, some, Result, ok, err, ok_or, ◌≡◌, refl, arith,
}
use rollup_starter.Acceptance.Paths.{
  FilePath, parent, parent-is_absolute, absolutize_from_cwd, absolutize_from_cwd-is_absolute,
  join-is_absolute,
}
use rollup_starter.Acceptance.Settings.{ResolvedRunSettings}
use rollup_starter.Acceptance.Directories.{
  Directories, DirectoryError, does_not_exist, not_a_directory, no_parent, user_path, from_settings,
  layout, create_directories, check_root,
}
use mathlib.Core.Path.{subst}
use rollup_starter.Common.Exec.{lift-eq-ok}

user_path-is_absolute :
    (o : Option FilePath) (cwd default : FilePath)
    → cwd.is_absolute ≡ true
    → default.is_absolute ≡ true
    → (user_path o cwd default).is_absolute ≡ true
user_path-is_absolute none cwd default h k = k
user_path-is_absolute (some p) cwd default h k = absolutize_from_cwd-is_absolute p cwd h

abbrev pub AllAbsolute : Directories → Type 0
AllAbsolute d =
    (d.rollup_root.is_absolute ≡ true)
    × (d.acceptance_test_dir.is_absolute ≡ true)
    × (d.rollup_build_cache_dir.is_absolute ≡ true)
    × (d.manager_build_dir.is_absolute ≡ true)
    × (d.output_dir.is_absolute ≡ true)
    × (d.rollup_data_path.is_absolute ≡ true)
    × (d.snapshots_dir.is_absolute ≡ true)
    × (d.throughput_dir.is_absolute ≡ true)

layout-AllAbsolute :
    (settings : ResolvedRunSettings) (dir root cwd : FilePath)
    → root.is_absolute ≡ true
    → dir.is_absolute ≡ true
    → cwd.is_absolute ≡ true
    → AllAbsolute (layout settings dir root cwd)
unfolding layout
layout-AllAbsolute settings dir root cwd r h k =
    let under = λ (p q : FilePath) (i : p.is_absolute ≡ true). join-is_absolute p q i in
    let output =
      under _ _ (user_path-is_absolute settings.acceptance_data_dir cwd _ k (under _ _ h)) in
    (
      r,
      h,
      user_path-is_absolute settings.binary_cache_dir cwd _ k (under _ _ h),
      under _ _ h,
      output,
      user_path-is_absolute settings.rollup_state_dir cwd _ k (under _ _ output),
      under _ _ output,
      under _ _ (user_path-is_absolute settings.acceptance_throughput_dir cwd _ k (under _ _ h)),
    )

create_directories-eq-ok :
    {IoError : Type 0} (is_dir : FilePath → Result IoError Bool)
    (create_dir : FilePath → Result IoError (Unit {0})) (a d : Directories) (made : List FilePath)
    → create_directories is_dir create_dir a [] ≡ (ok d, made)
    → (a ≡ d)
      × (made ≡ a.throughput_dir ∷ a.snapshots_dir ∷ a.output_dir ∷ a.rollup_build_cache_dir ∷ [])
unfolding create_directories
create_directories-eq-ok is_dir create_dir a d made e = ground arith

-- The root of the rollup's repository is two directories above the harness.
abbrev pub RootOf : FilePath → FilePath → Type 0
RootOf dir root = (scripts : FilePath) × (parent dir ≡ some scripts) × (parent scripts ≡ some root)

check_root-RootOf :
    {IoError : Type 0} (is_dir : FilePath → Result IoError Bool)
    (create_dir : FilePath → Result IoError (Unit {0})) (dir root : FilePath)
    → check_root is_dir create_dir dir ≡ ok root
    → RootOf dir root
unfolding check_root
check_root-RootOf {IoError} is_dir create_dir dir root h = go (is_dir dir) h
  where
    up : Option FilePath → Result (DirectoryError IoError) FilePath
    up none = err no_parent
    up (some scripts) = ok_or (parent scripts) no_parent

    check : Result IoError Bool → Result (DirectoryError IoError) FilePath
    check (err e) = err (does_not_exist dir e)
    check (ok false) = err (not_a_directory dir)
    check (ok true) = up (parent dir)

    found :
        (o : Option FilePath)
        → ok_or {E = DirectoryError IoError} o no_parent ≡ ok root
        → o ≡ some root
    found none k = absurd (cc k)
    found (some p) k = cc k

    above : (o : Option FilePath) → parent dir ≡ o → up o ≡ ok root → RootOf dir root
    above none q k = absurd (cc k)
    above (some scripts) q k = (scripts, q, found (parent scripts) k)

    go : (r : Result IoError Bool) → check r ≡ ok root → RootOf dir root
    go (err e) k = absurd (cc k)
    go (ok false) k = absurd (cc k)
    go (ok true) k = above (parent dir) refl k

-- Run from an absolute directory, `from_settings` returns absolute paths only, whatever paths the
-- user gave; the root is two directories above the one of the harness; and it has created the build
-- cache, the output, the snapshot and the throughput directory, in this order and no other.
pub from_settings-AllAbsolute :
    {IoError : Type 0} (is_dir : FilePath → Result IoError Bool)
    (create_dir : FilePath → Result IoError (Unit {0})) (settings : ResolvedRunSettings)
    (dir cwd : FilePath) (d : Directories) (made : List FilePath)
    → cwd.is_absolute ≡ true
    → from_settings is_dir create_dir settings dir cwd [] ≡ (ok d, made)
    → AllAbsolute d
      × RootOf d.acceptance_test_dir d.rollup_root
      × (made ≡ d.throughput_dir ∷ d.snapshots_dir ∷ d.output_dir ∷ d.rollup_build_cache_dir ∷ [])
unfolding from_settings layout
from_settings-AllAbsolute is_dir create_dir settings dir cwd d made h e =
    let a = absolutize_from_cwd dir cwd in
    let (root, checked, q) =
      lift-eq-ok (check_root is_dir create_dir a)
        (λ r. create_directories is_dir create_dir (layout settings a r cwd)) [] e in
    let (above_dir, up, above) = check_root-RootOf is_dir create_dir a root checked in
    let (same, listed) = create_directories-eq-ok is_dir create_dir _ d made q in
    let good =
      layout-AllAbsolute settings a root cwd
        (parent-is_absolute above_dir root
          (parent-is_absolute a above_dir (absolutize_from_cwd-is_absolute dir cwd h) up) above)
        (absolutize_from_cwd-is_absolute dir cwd h) h in
    (
      subst AllAbsolute same good,
      subst (λ x. RootOf x.acceptance_test_dir x.rollup_root) same (root_of_layout root checked),
      rw (← same) listed,
    )
  where
    root_of_layout :
        (root : FilePath)
        → check_root is_dir create_dir (absolutize_from_cwd dir cwd) ≡ ok root
        → let l = layout settings (absolutize_from_cwd dir cwd) root cwd in
          RootOf l.acceptance_test_dir l.rollup_root
    root_of_layout root checked =
        check_root-RootOf is_dir create_dir (absolutize_from_cwd dir cwd) root checked
