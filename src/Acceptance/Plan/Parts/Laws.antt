-- ===== src/Acceptance/Plan/Parts/Laws.antt =====
-- Where the binaries of a version come from.
use rollup_starter.Common.{
  Bool, String, List, [], ◌∷◌, Option, some, Result, ok, err, ◌≡◌, refl, sym, ap, ◌∙◌, arith, ok_or,
  map_ok, >>=-eq-ok,
}
use rollup_starter.Acceptance.Paths.{FilePath}
use rollup_starter.Acceptance.Directories.{Directories}
use rollup_starter.Acceptance.Plan.Sources.{
  VersionSource, remote_commit, local_head, ResolvedVersion,
}
use rollup_starter.Acceptance.Plan.Targets.{Artifacts, Tools, LocalBinaries, try, no_soak_binary}
use rollup_starter.Acceptance.Plan.Parts.{
  VersionParts, version_parts, remote_parts, local_parts, remote_migration, template_path,
}

-- The binaries of a version's parts and the artifacts that are left, for each source.
abbrev pub FromSource :
    (t : Tools)
    → LocalBinaries
    → List Artifacts
    → VersionSource
    → FilePath
    → FilePath
    → List Artifacts
    → Type 0
FromSource t l arts local_head rollup soak rest =
    (rollup ≡ l.rollup_bin) × (soak ≡ l.soak_bin) × (rest ≡ arts)
FromSource t l [] (remote_commit c) rollup soak rest = ⊥
FromSource t l (a ∷ arts) (remote_commit c) rollup soak rest =
    (t.canonicalize a.rollup_binary ≡ ok rollup)
    × ((p : FilePath) × (a.soak_binary ≡ some p) × (t.canonicalize p ≡ ok soak))
    × (rest ≡ arts)

module _ (t : Tools) (d : Directories) where
  ok_or-eq-ok : {E A : Type 0} (o : Option A) (e : E) {a : A} → ok_or o e ≡ ok a → o ≡ some a
  ok_or-eq-ok o e h = ground arith

  local_parts-eq-ok :
      (l : LocalBinaries) (v : ResolvedVersion) (p : VersionParts)
      → local_parts t d l v ≡ ok p
      → (p.rollup_binary ≡ l.rollup_bin) × (p.soak_binary ≡ l.soak_bin)
  unfolding local_parts
  local_parts-eq-ok l v p h = ground arith

  remote_parts-eq-ok :
      (c : String) (v : ResolvedVersion) (a : Artifacts) (p : VersionParts)
      → remote_parts t d c v a ≡ ok p
      → (t.canonicalize a.rollup_binary ≡ ok p.rollup_binary)
        × ((s : FilePath) × (a.soak_binary ≡ some s) × (t.canonicalize s ≡ ok p.soak_binary))
  unfolding remote_parts
  remote_parts-eq-ok c v a p h =
      let (s, q, h₁) = >>=-eq-ok (ok_or a.soak_binary (no_soak_binary c)) _ h in
      let (_, _, h₂) = >>=-eq-ok (try t (t.read_text_file_at_commit c template_path)) _ h₁ in
      let (_, _, h₃) = >>=-eq-ok (remote_migration t d c v a) _ h₂ in
      let (r, q₁, h₄) = >>=-eq-ok (try t (t.canonicalize a.rollup_binary)) _ h₃ in
      let (k, q₂, h₅) = >>=-eq-ok (try t (t.canonicalize s)) _ h₄ in
      (ground arith, (s, ok_or-eq-ok a.soak_binary (no_soak_binary c) q, ground arith))

  map_ok-eq-ok :
      {E A B : Type 0} (f : A → B) (r : Result E A) {b : B}
      → map_ok f r ≡ ok b
      → (a : A) × (r ≡ ok a) × (f a ≡ b)
  map_ok-eq-ok f (ok a) h = (a, refl, cc)
  map_ok-eq-ok f (err e) h = absurd (cc h)

  source_lem :
      (l : LocalBinaries) (arts : List Artifacts) (s : VersionSource) (m : Option FilePath)
      (b : Bool) (p : VersionParts) (rest : List Artifacts)
      → version_parts t d l arts (record { source = s; migration_path = m; build_db_migration = b })
        ≡ ok (p, rest)
      → FromSource t l arts s p.rollup_binary p.soak_binary rest
  unfolding version_parts
  source_lem l arts local_head m b p rest h =
      let v : ResolvedVersion = record {
        source = local_head;
        migration_path = m;
        build_db_migration = b;
      } in
      let (q, e, same) = map_ok-eq-ok (λ p. (p, arts)) (local_parts t d l v) h in
      let (x, y) = local_parts-eq-ok l v p (e ∙ ap ok (ap (λ z. z.0) same)) in
      (x, y, sym (ap (λ z. z.1) same))
  source_lem l [] (remote_commit c) m b p rest h = absurd (cc h)
  source_lem l (a ∷ arts) (remote_commit c) m b p rest h =
      let v : ResolvedVersion = record {
        source = remote_commit c;
        migration_path = m;
        build_db_migration = b;
      } in
      let (q, e, same) = map_ok-eq-ok (λ p. (p, arts)) (remote_parts t d c v a) h in
      let (x, y) = remote_parts-eq-ok c v a p (e ∙ ap ok (ap (λ z. z.0) same)) in
      (x, y, sym (ap (λ z. z.1) same))

  pub version_parts-FromSource :
      (l : LocalBinaries) (arts : List Artifacts) (v : ResolvedVersion) (p : VersionParts)
      (rest : List Artifacts)
      → version_parts t d l arts v ≡ ok (p, rest)
      → FromSource t l arts v.source p.rollup_binary p.soak_binary rest
  version_parts-FromSource l arts v p rest h =
      source_lem l arts v.source v.migration_path v.build_db_migration p rest h
