-- ===== src/Acceptance/Setup/MockData.antt =====
-- The mock DA's files across runs.
use rollup_starter.Common.{
  Bool, true, false, String, Option, none, some, Result, ok, err, ◌≡◌, ◌≢◌, ap, ◌∙◌, arith,
}
use rollup_starter.Common.Exec.{continue_with, continue_with-eq-ok, ◌>>◌}
use rollup_starter.Acceptance.Setup.{
  MockFile, base, shm, wal, get, put, Disk, Failures, MockError, OnDisk, remove_stale, copy_base,
  copy_sidecar, copy_persistent_mock_data, rename, save_mock_data,
}

-- What is persistent of a sidecar after a save: the run's own file if it is there and can be renamed, and
-- else the one from before.
abbrev pub kept : Bool → Option String → Option String → Option String
kept true mine old = old
kept false none old = old
kept false (some c) old = some c

module _ (io : Failures) where
  remove_stale-eq-ok :
      (f : MockFile) (d d' : Disk)
      → remove_stale io f d ≡ (ok tt, d')
      → d' ≡ record d { mock = put f none d.mock }
  unfolding remove_stale
  remove_stale-eq-ok f d d' h = ground arith

  copy_base-eq-ok :
      (d d' : Disk)
      → copy_base io d ≡ (ok tt, d')
      → d' ≡ record d { mock = put base d.persistent.base_file d.mock }
  unfolding copy_base
  copy_base-eq-ok d d' h = ground arith

  copy_sidecar-eq-ok :
      (f : MockFile) (d d' : Disk)
      → get f d.mock ≡ none
      → copy_sidecar io f d ≡ (ok tt, d')
      → d' ≡ record d { mock = put f (get f d.persistent) d.mock }
  unfolding copy_sidecar
  copy_sidecar-eq-ok base d d' gone h = ground arith
  copy_sidecar-eq-ok shm d d' gone h = ground arith
  copy_sidecar-eq-ok wal d d' gone h = ground arith

  -- A successful copy makes the files of the mock DA exactly the persistent ones, whatever was there
  -- before, and leaves the persistent ones.
  pub copy_persistent_mock_data-eq-ok :
      (d d' : Disk)
      → copy_persistent_mock_data io d ≡ (ok tt, d')
      → (d'.mock ≡ d.persistent) × (d'.persistent ≡ d.persistent)
  unfolding copy_persistent_mock_data
  copy_persistent_mock_data-eq-ok d d' h =
      let (_, d₁, p₁, h₁) = continue_with-eq-ok _ (remove_stale io base d) h in
      let (_, d₂, p₂, h₂) = continue_with-eq-ok _ (remove_stale io shm d₁) h₁ in
      let (_, d₃, p₃, h₃) = continue_with-eq-ok _ (remove_stale io wal d₂) h₂ in
      let (_, d₄, p₄, h₄) = continue_with-eq-ok _ (copy_base io d₃) h₃ in
      let (_, d₅, p₅, h₅) = continue_with-eq-ok _ (copy_sidecar io shm d₄) h₄ in
      let e₁ = remove_stale-eq-ok base d d₁ p₁ in
      let e₂ = remove_stale-eq-ok shm d₁ d₂ p₂ in
      let e₃ = remove_stale-eq-ok wal d₂ d₃ p₃ in
      let e₄ = copy_base-eq-ok d₃ d₄ p₄ in
      let no_shm : d₄.mock.shm_file ≡ none = rw e₄ (rw e₃ (rw e₂)) in
      let e₅ = copy_sidecar-eq-ok shm d₄ d₅ no_shm p₅ in
      let no_wal : d₅.mock.wal_file ≡ none = rw e₅ (rw e₄ (rw e₃)) in
      let e₆ = copy_sidecar-eq-ok wal d₅ d' no_wal h₅ in
      (rw e₆ (rw e₅ (rw e₄ (rw e₃ (rw e₂ (rw e₁))))), rw e₆ (rw e₅ (rw e₄ (rw e₃ (rw e₂ (rw e₁))))))

  abbrev KeepsPersistent : OnDisk → Type 0
  KeepsPersistent step = (d : Disk) → (step d).1.persistent ≡ d.persistent

  keep_both : (m n : OnDisk) → KeepsPersistent m → KeepsPersistent n → KeepsPersistent (m >> n)
  keep_both m n h k d = go (m d) (h d)
    where
      go :
          (r : Result MockError (Unit {0}) × Disk)
          → r.1.persistent ≡ d.persistent
          → (continue_with (λ _. n) r).1.persistent ≡ d.persistent
      go (err e, d') p = p
      go (ok u, d') p = k d' ∙ p

  remove_stale-persistent : (f : MockFile) → KeepsPersistent (remove_stale io f)
  unfolding remove_stale
  remove_stale-persistent f d = ground arith

  copy_base-persistent : KeepsPersistent (copy_base io)
  unfolding copy_base
  copy_base-persistent d = ground arith

  copy_sidecar-persistent : (f : MockFile) → KeepsPersistent (copy_sidecar io f)
  unfolding copy_sidecar
  copy_sidecar-persistent f d = ground arith

  -- A copy, successful or not, leaves the persistent files.
  pub copy_persistent_mock_data-persistent : KeepsPersistent (copy_persistent_mock_data io)
  unfolding copy_persistent_mock_data
  copy_persistent_mock_data-persistent =
      keep_both (remove_stale io base) _ (remove_stale-persistent base) (
        keep_both (remove_stale io shm) _ (remove_stale-persistent shm) (
          keep_both (remove_stale io wal) _ (remove_stale-persistent wal) (
            keep_both (copy_base io) _ copy_base-persistent (
              keep_both (copy_sidecar io shm) (copy_sidecar io wal) (copy_sidecar-persistent shm)
                (copy_sidecar-persistent wal)))))

  -- A save that fails has changed nothing.
  pub save_mock_data-eq-err :
      (d d' : Disk) (e : MockError) → save_mock_data io d ≡ (err e, d') → d' ≡ d
  unfolding save_mock_data rename
  save_mock_data-eq-err d d' e h = ground arith

  -- A successful save makes the run's database the persistent one; a sidecar becomes the persistent one
  -- if it is there and can be renamed, and else the persistent one of an earlier run stays.
  pub save_mock_data-eq-ok :
      (d d' : Disk)
      → save_mock_data io d ≡ (ok tt, d')
      → (d.mock.base_file ≢ none)
        × (d'.persistent.base_file ≡ d.mock.base_file)
        × (d'.persistent.shm_file
            ≡ kept (io.rename_fails shm) d.mock.shm_file d.persistent.shm_file)
        × (d'.persistent.wal_file
            ≡ kept (io.rename_fails wal) d.mock.wal_file d.persistent.wal_file)
  unfolding save_mock_data rename
  save_mock_data-eq-ok d d' h = ground arith

-- A save and a later copy, both successful, with no other writer in between: the database of the mock DA
-- is the one that was saved; a sidecar is the one that was saved if it was there and could be renamed,
-- and else the persistent one of an earlier run.
pub copy_persistent_mock_data-save_mock_data :
    (io io' : Failures) (d d₁ d₂ : Disk)
    → save_mock_data io d ≡ (ok tt, d₁)
    → copy_persistent_mock_data io' d₁ ≡ (ok tt, d₂)
    → (d.mock.base_file ≢ none)
      × (d₂.mock.base_file ≡ d.mock.base_file)
      × (d₂.mock.shm_file ≡ kept (io.rename_fails shm) d.mock.shm_file d.persistent.shm_file)
      × (d₂.mock.wal_file ≡ kept (io.rename_fails wal) d.mock.wal_file d.persistent.wal_file)
copy_persistent_mock_data-save_mock_data io io' d d₁ d₂ h k =
    let (there, same, shm_kept, wal_kept) = save_mock_data-eq-ok io d d₁ h in
    let (copied, _) = copy_persistent_mock_data-eq-ok io' d₁ d₂ k in
    (
      there,
      ap (λ f. f.base_file) copied ∙ same,
      ap (λ f. f.shm_file) copied ∙ shm_kept,
      ap (λ f. f.wal_file) copied ∙ wal_kept,
    )
