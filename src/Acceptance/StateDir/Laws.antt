-- ===== src/Acceptance/StateDir/Laws.antt =====
-- What is left at the state path after it was prepared or cleaned up.
use rollup_starter.Common.{
  Bool, true, false, ◌&&◌, List, [], ◌∷◌, ◌++◌, ok, err, ◌≡◌, refl, ◌⊎◌, inl, inr, ap, arith, All,
  Bool-cases,
}
use rollup_starter.Acceptance.Settings.{ExistingRollupState, clobber, error, ignore}
use rollup_starter.Acceptance.StateDir.{
  Removal, gone, stays, DirEntry, PathState, absent, uninspectable, plain_file, directory,
  StateDirError, not_empty, clear_entries, prepare_rollup_state_dir, cleanup_rollup_state_dir,
}

abbrev pub empty_dir : PathState
empty_dir = directory true []

clear_entries-eq-ok :
    (es : List DirEntry) → (clear_entries es).0 ≡ ok tt → (clear_entries es).1 ≡ []
unfolding clear_entries
clear_entries-eq-ok [] h = refl
clear_entries-eq-ok (e ∷ es) h = ground (arith, clear_entries-eq-ok es)

-- What a successful preparation under each policy leaves, `p` before and `q` after.
abbrev pub Prepared : ExistingRollupState → PathState → PathState → Type 0
Prepared clobber p q = q ≡ empty_dir
Prepared error p q = (q ≡ empty_dir) × ((p ≡ absent) ⊎ (p ≡ q))
Prepared ignore p q = ((p ≡ absent) × (q ≡ empty_dir)) ⊎ (p ≡ q)

-- After a successful preparation: under `clobber` the directory is empty; under `error` it is
-- empty, and it was missing before or is unchanged; under `ignore` it is empty if it was missing,
-- and else unchanged.
pub prepare_rollup_state_dir-Prepared :
    (can_create : Bool) (policy : ExistingRollupState) (p q : PathState)
    → prepare_rollup_state_dir can_create policy p ≡ (ok tt, q)
    → Prepared policy p q
unfolding prepare_rollup_state_dir
prepare_rollup_state_dir-Prepared can_create clobber (directory true es) q h =
    ground (arith, clear_entries-eq-ok es)
prepare_rollup_state_dir-Prepared can_create clobber p q h = ground arith
prepare_rollup_state_dir-Prepared can_create error p q h = ground arith
prepare_rollup_state_dir-Prepared can_create ignore p q h = ground arith

-- The entry at which the removal fails: it stays, and of a directory a part may be gone.
abbrev pub Damaged : DirEntry → DirEntry → Type 0
Damaged e e' = (e' ≡ e) ⊎ ((e.is_dir ≡ true) × (e' ≡ record e { contents = e'.contents }))

-- What a failed preparation leaves: under `clobber` some entries may be gone, a prefix of the listing.
abbrev pub FailedLeaves : ExistingRollupState → PathState → PathState → Type 0
FailedLeaves clobber p q =
    (p ≡ q)
    ⊎ ((removed rest : List DirEntry) × (e e' : DirEntry) × (p
          ≡ directory true (removed ++ e ∷ rest))
        × (q ≡ directory true (e' ∷ rest))
        × Damaged e e')
FailedLeaves error p q = p ≡ q
FailedLeaves ignore p q = p ≡ q

-- The loop fails at an entry, before which all are gone and after which none.
clear_entries-eq-err :
    (es : List DirEntry) (f : StateDirError)
    → (clear_entries es).0 ≡ err f
    → (removed rest : List DirEntry) × (e e' : DirEntry) × (es ≡ removed ++ e ∷ rest)
      × ((clear_entries es).1 ≡ e' ∷ rest)
      × Damaged e e'
unfolding clear_entries
clear_entries-eq-err [] f h = absurd (cc h)
clear_entries-eq-err (e ∷ es) f h = elim (Bool-cases (e.is_readable && e.is_inspectable)) [
  | inl r ↦ go e.removal refl r (clear_entries-eq-err es f)
  | inr r ↦ ([], es, e, e, refl, simp r, inl refl)
]
  where
    Fails : List DirEntry → Type 0
    Fails ds =
        (removed rest : List DirEntry) × (d d' : DirEntry) × (ds ≡ removed ++ d ∷ rest)
        × ((clear_entries ds).1 ≡ d' ∷ rest)
        × Damaged d d'

    go :
        (m : Removal)
        → e.removal ≡ m
        → (e.is_readable && e.is_inspectable) ≡ true
        → ((clear_entries es).0 ≡ err f → Fails es)
        → Fails (e ∷ es)
    go gone q r later =
        let (removed, rest, d, d', split, left, damaged) = later (rw (r, q) at h) in
        (e ∷ removed, rest, d, d', ap (λ l. e ∷ l) split, simp (r, q) left, damaged)
    go (stays left) q r later = elim (Bool-cases e.is_dir) [
      | inl dir ↦ ([], es, e, record e { contents = left }, refl, simp (r, q, dir), inr (dir, refl))
      | inr file ↦ ([], es, e, e, refl, simp (r, q, file), inl refl)
    ]

-- A preparation that fails under `error` or `ignore` has changed nothing. One that fails under
-- `clobber` has changed nothing, or has removed a prefix of the entries, failed at the next one, of
-- which a part may be gone if it is a directory, and left those after it.
pub prepare_rollup_state_dir-FailedLeaves :
    (can_create : Bool) (policy : ExistingRollupState) (p q : PathState) (e : StateDirError)
    → prepare_rollup_state_dir can_create policy p ≡ (err e, q)
    → FailedLeaves policy p q
unfolding prepare_rollup_state_dir
prepare_rollup_state_dir-FailedLeaves can_create clobber (directory true es) q e h =
    let (removed, rest, d, d', split, left, damaged) = clear_entries-eq-err es e (ground arith) in
    inr (removed, rest, d, d', ap (directory true) split, ground (arith, left), damaged)
prepare_rollup_state_dir-FailedLeaves can_create clobber (directory false es) q e h =
    inl (ground arith)
prepare_rollup_state_dir-FailedLeaves can_create clobber absent q e h = inl (ground arith)
prepare_rollup_state_dir-FailedLeaves can_create clobber uninspectable q e h = inl (ground arith)
prepare_rollup_state_dir-FailedLeaves can_create clobber plain_file q e h = inl (ground arith)
prepare_rollup_state_dir-FailedLeaves can_create error p q e h = ground arith
prepare_rollup_state_dir-FailedLeaves can_create ignore p q e h = ground arith

abbrev pub IsCleared : DirEntry → Type 0
IsCleared e = (e.is_readable ≡ true) × (e.is_inspectable ≡ true) × (e.removal ≡ gone)

clear_entries_total : (es : List DirEntry) → All IsCleared es → clear_entries es ≡ (ok tt, [])
unfolding clear_entries
clear_entries_total [] h = refl
clear_entries_total (e ∷ es) h = ground (arith, clear_entries_total es)

-- On a directory that can be listed and whose entries can all be read, inspected and removed, `clobber`
-- succeeds and so does the cleanup, both with an empty directory left, and `error` refuses the
-- directory exactly if it has an entry, unchanged.
pub healthy_directory :
    (can_create : Bool) (e : DirEntry) (es : List DirEntry)
    → All IsCleared (e ∷ es)
    → (prepare_rollup_state_dir can_create clobber (directory true (e ∷ es)) ≡ (ok tt, empty_dir))
      × (cleanup_rollup_state_dir (directory true (e ∷ es)) ≡ (ok tt, empty_dir))
      × (prepare_rollup_state_dir can_create error (directory true (e ∷ es))
          ≡ (err not_empty, directory true (e ∷ es)))
      × (prepare_rollup_state_dir can_create error empty_dir ≡ (ok tt, empty_dir))
unfolding prepare_rollup_state_dir cleanup_rollup_state_dir
healthy_directory can_create e es h = ground (arith, clear_entries_total (e ∷ es) h)

-- A successful cleanup leaves a missing path missing and otherwise an empty directory, and a second
-- cleanup then succeeds and changes nothing.
pub cleanup_rollup_state_dir_idem :
    (p q : PathState)
    → cleanup_rollup_state_dir p ≡ (ok tt, q)
    → (((p ≡ absent) × (q ≡ absent)) ⊎ (q ≡ empty_dir)) × (cleanup_rollup_state_dir q ≡ (ok tt, q))
unfolding cleanup_rollup_state_dir
cleanup_rollup_state_dir_idem absent q h = ground arith
cleanup_rollup_state_dir_idem (directory true es) q h =
    let e : q ≡ empty_dir = ground (arith, clear_entries-eq-ok es) in (inr e, rw e)
cleanup_rollup_state_dir_idem _ q h = ground arith
