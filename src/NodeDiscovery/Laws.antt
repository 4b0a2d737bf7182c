-- ===== src/NodeDiscovery/Laws.antt =====
-- What the nginx serves that node discovery reloads.
use rollup_starter.Common.{
  Bool, true, false, List, [], ◌∷◌, Result, ok, err, ◌≡◌, refl, ap, ◌∙◌, ◌⊎◌, inl, inr, Any,
  if◌then◌else◌,
}
use rollup_starter.Common.Exec.{continue_with}
use rollup_starter.Common.Codes.{Codes}
use rollup_starter.NodeDiscovery.{
  ClusterInfo, create_lua_backend_cache_content, Host, UpdateError, write_failed, Conditions,
  run_command, write_config, validate_config, reload, on_cluster_update, Update, run_updates,
}

module _ (valid : Codes → Bool) where
  -- An update that succeeds has loaded the configuration of its cluster, which is valid and in the file;
  -- one that fails loads nothing.
  abbrev pub Updated : ClusterInfo → Host → Result UpdateError (Unit {0}) × Host → Type 0
  Updated info h (ok u, h') =
      (h'.loaded ≡ create_lua_backend_cache_content info)
      × (h'.config_file ≡ h'.loaded)
      × (valid h'.loaded ≡ true)
  Updated info h (err e, h') = h'.loaded ≡ h.loaded

  reload-Updated :
      (c : Conditions) (info : ClusterInfo) (h : Host)
      → h.config_file ≡ create_lua_backend_cache_content info
      → valid h.config_file ≡ true
      → Updated info h (reload valid c h)
  unfolding reload
  reload-Updated c info h written passes = go (run_command c.reload_executes c.reload_takes)
    where
      go :
          (r : Result UpdateError (Unit {0}))
          → Updated info h (elim r as (λ _. Result UpdateError (Unit {0}) × Host) [
            | ok _ ↦ (ok tt, record h { loaded = h.config_file })
            | err e ↦ (err e, h)
          ])
      go (ok u) = (written, refl, passes)
      go (err e) = refl

  run_command-status :
      (executes status : Bool) → run_command executes status ≡ ok tt → status ≡ true
  unfolding run_command
  run_command-status false status h = absurd (cc h)
  run_command-status true false h = absurd (cc h)
  run_command-status true true h = refl

  checked-Updated :
      (c : Conditions) (info : ClusterInfo) (h : Host)
      → h.config_file ≡ create_lua_backend_cache_content info
      → Updated info h (continue_with (λ _. reload valid c) (validate_config valid c h))
  unfolding validate_config
  checked-Updated c info h written = go (run_command c.test_executes (valid h.config_file)) refl
    where
      go :
          (r : Result UpdateError (Unit {0}))
          → run_command c.test_executes (valid h.config_file) ≡ r
          → Updated info h (continue_with (λ _. reload valid c) (r, h))
      go (ok tt) q =
          reload-Updated c info h written
            (run_command-status c.test_executes (valid h.config_file) q)
      go (err e) q = refl

  -- The states before and after the file is written have the same configuration loaded.
  Updated-loaded :
      (info : ClusterInfo) (h h₁ : Host) (r : Result UpdateError (Unit {0}) × Host)
      → h₁.loaded ≡ h.loaded
      → Updated info h₁ r
      → Updated info h r
  Updated-loaded info h h₁ (ok u, h') same updated = updated
  Updated-loaded info h h₁ (err e, h') same updated = updated ∙ same

  pub on_cluster_update-Updated :
      (c : Conditions) (info : ClusterInfo) (h : Host)
      → Updated info h (on_cluster_update valid c info h)
  unfolding on_cluster_update write_config
  on_cluster_update-Updated c info h = go c.can_write
    where
      check : Unit {0} → Host → Result UpdateError (Unit {0}) × Host
      check _ h₁ = continue_with (λ _. reload valid c) (validate_config valid c h₁)

      written : Host
      written = record h { config_file = create_lua_backend_cache_content info }

      go :
          (can_write : Bool)
          → Updated info h
              (continue_with check (if can_write then (ok tt, written) else (err write_failed, h)))
      go true =
          Updated-loaded info h written (check tt written) refl
            (checked-Updated c info written refl)
      go false = refl

  -- What is loaded was loaded before, or is the configuration of an update's cluster.
  abbrev pub Serves : List Update → Host → Host → Type 0
  Serves updates h h' =
      (h'.loaded ≡ h.loaded)
      ⊎ Any (λ u. h'.loaded ≡ create_lua_backend_cache_content u.cluster_info) updates

  -- After any updates the loaded configuration is valid, if it was so before, and it is that of the
  -- cluster of one of the updates, or still the one before them, whatever steps have failed.
  pub run_updates-Serves :
      (updates : List Update) (h : Host)
      → valid h.loaded ≡ true
      → let h' = run_updates valid updates h in (valid h'.loaded ≡ true) × Serves updates h h'
  unfolding run_updates
  run_updates-Serves [] h loads = (loads, inl refl)
  run_updates-Serves (u ∷ updates) h loads =
      let r = on_cluster_update valid u.conditions u.cluster_info h in
      let (loads', step) = go r (on_cluster_update-Updated u.conditions u.cluster_info h) in
      let (valid', later) = run_updates-Serves updates r.1 loads' in
      (
        valid',
        elim later [
          | inl same ↦ elim step [ inl kept ↦ inl (same ∙ kept) | inr new ↦ inr (inl (same ∙ new)) ]
          | inr found ↦ inr (inr found)
        ],
      )
    where
      go :
          (r : Result UpdateError (Unit {0}) × Host)
          → Updated u.cluster_info h r
          → (valid r.1.loaded ≡ true)
            × ((r.1.loaded ≡ h.loaded)
                ⊎ (r.1.loaded ≡ create_lua_backend_cache_content u.cluster_info))
      go (ok done, h') (same, file, passes) = (passes, inr same)
      go (err e, h') same = (ap valid same ∙ loads, inl same)
