-- ===== src/Acceptance/Plan/Sources/Laws.antt =====
-- The shape of the resolved versions.
use mathlib.Core.Path.{subst, ap}
use rollup_starter.Common.{
  suc, Bool, false, String, List, [], ◌∷◌, none, Result, ok, ◌≡◌, refl, ◌⊎◌, inl, inr, arith,
  length, Bool-cases, >>=-eq-ok, map_err, ok_or,
}
use rollup_starter.Acceptance.Paths.{FilePath, join, relative, parent}
use rollup_starter.Acceptance.Plan.Sources.{
  VersionSource, remote_commit, local_head, ResolvedVersion, VersionSpecEntry, is_blank,
  local_version, localize_last, resolve_entry, resolve_entries, load_version_sources, spec_file,
  load_spec, spec_unreadable, spec_malformed, no_parent,
}

-- At most one way to migrate.
abbrev pub OneMigration : ResolvedVersion → Type 0
OneMigration v = (v.build_db_migration ≡ false) ⊎ (v.migration_path ≡ none)

abbrev pub IsNamed : VersionSource → Type 0
IsNamed (remote_commit commit) = is_blank commit ≡ false
IsNamed local_head = ⊥

abbrev pub IsRemote : ResolvedVersion → Type 0
IsRemote v = IsNamed v.source

-- At least one version; all but the last from a commit that is named, the last from the local head.
abbrev pub IsResolved : List ResolvedVersion → Type 0
IsResolved [] = ⊥
IsResolved (v ∷ []) = (v.source ≡ local_head) × OneMigration v
IsResolved (v ∷ w ∷ rest) = IsRemote v × OneMigration v × IsResolved (w ∷ rest)

abbrev AllRemote : List ResolvedVersion → Type 0
AllRemote [] = Unit
AllRemote (v ∷ rest) = IsRemote v × OneMigration v × AllRemote rest

localize_last-IsResolved :
    (vs : List ResolvedVersion) → AllRemote vs → IsResolved (localize_last vs)
unfolding localize_last
localize_last-IsResolved [] h = (refl, inl refl)
localize_last-IsResolved (v ∷ []) h = (refl, h.1)
localize_last-IsResolved (v ∷ w ∷ []) h = (h.0, h.1, (refl, h.2.1))
localize_last-IsResolved (v ∷ w ∷ x ∷ rest) h =
    (h.0, h.1, localize_last-IsResolved (w ∷ x ∷ rest) h.2)

-- One version for each entry, or one if there is none.
length-localize_last :
    (v : ResolvedVersion) (vs : List ResolvedVersion)
    → length (localize_last (v ∷ vs)) ≡ length (v ∷ vs)
unfolding localize_last
length-localize_last v [] = refl
length-localize_last v (w ∷ vs) = omega (arith, length-localize_last w vs)

module _ {IoError YamlError : Type 0} (read_to_string : FilePath → Result IoError String)
    (parse_vars : String → Result YamlError String) where
  resolve_entry-IsRemote :
      (d : FilePath) (e : VersionSpecEntry) (v : ResolvedVersion)
      → resolve_entry read_to_string parse_vars d e ≡ ok v
      → IsRemote v × OneMigration v
  unfolding resolve_entry
  resolve_entry-IsRemote d e v h = ground arith

  resolve_entries-AllRemote :
      (d : FilePath) (es : List VersionSpecEntry) (vs : List ResolvedVersion)
      → resolve_entries read_to_string parse_vars d es ≡ ok vs
      → AllRemote vs × (length vs ≡ length es)
  unfolding resolve_entries
  resolve_entries-AllRemote d [] [] h = (tt, refl)
  resolve_entries-AllRemote d [] (v ∷ vs) h = absurd (cc h)
  resolve_entries-AllRemote d (e ∷ es) vs h =
      let (v, p, h₁) = >>=-eq-ok (resolve_entry read_to_string parse_vars d e) _ h in
      let (rest, q, h₂) = >>=-eq-ok (resolve_entries read_to_string parse_vars d es) _ h₁ in
      let (remote, one) = resolve_entry-IsRemote d e v p in
      let (remotes, n) = resolve_entries-AllRemote d es rest q in
      let same : v ∷ rest ≡ vs = ground arith in
      subst (λ ws. AllRemote ws × (length ws ≡ suc (length es))) same
        ((remote, one, remotes), ap suc n)

  module _ (exists : FilePath → Bool)
      (parse_spec : String → Result YamlError (List VersionSpecEntry)) where
    load_spec-IsResolved :
        (path : FilePath) (vs : List ResolvedVersion)
        → load_spec read_to_string parse_vars exists parse_spec path ≡ ok vs
        → IsResolved vs
    unfolding load_spec
    load_spec-IsResolved path vs h =
        let (contents, _, h₁) = >>=-eq-ok (map_err spec_unreadable (read_to_string path)) _ h in
        let (entries, _, h₂) = >>=-eq-ok (map_err spec_malformed (parse_spec contents)) _ h₁ in
        let (d, _, h₃) = >>=-eq-ok (ok_or (parent path) no_parent) _ h₂ in
        let (ws, p, h₄) = >>=-eq-ok (resolve_entries read_to_string parse_vars d entries) _ h₃ in
        let same : localize_last ws ≡ vs = cc h₄ in
        subst IsResolved same
          (localize_last-IsResolved ws (resolve_entries-AllRemote d entries ws p).0)

    -- The versions that are loaded are at least one; every version but the last is a commit with a
    -- name that is not blank, the last is the local head, and each has at most one of a migration
    -- path and a migration to build.
    pub load_version_sources-IsResolved :
        (dir : FilePath) (vs : List ResolvedVersion)
        → load_version_sources read_to_string parse_vars exists parse_spec dir ≡ ok vs
        → IsResolved vs
    unfolding load_version_sources
    load_version_sources-IsResolved dir vs h =
        elim (Bool-cases (exists (join dir (relative spec_file)))) [
          | inl there ↦ load_spec-IsResolved _ vs (rw (there, load_version_sources) at h)
          | inr gone ↦
              let same : local_version ∷ [] ≡ vs = cc (rw (gone, load_version_sources) at h) in
              subst IsResolved same (refl, inl refl)
        ]
