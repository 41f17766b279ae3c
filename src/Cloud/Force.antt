-- ===== src/Cloud/Force.antt =====
-- `force_cloud` is fail-closed: it reports success only for a route that was read back.
use Prim.Native.String.{String}
use old_pixel_gun_3d_online.Base.{
  ◌≡◌, ◌≢◌, ◌⊎◌, Bool-cases, nonzero_of, refl, ◌∙◌, inl, inr, Bool, true, false, ◌||◌, Ptr, null,
  is_null, arith,
}
use old_pixel_gun_3d_online.State.{Env, State, string_new}
use old_pixel_gun_3d_online.State.Monad.{Ensures, Ensures-bind, Ensures-any, Ensures-mono}
use old_pixel_gun_3d_online.Cloud.{
  force_cloud, apply_route, current_server_settings, new_app_id, resolve_use_cloud,
  refuse_missing_app_id, is_empty,
}
use old_pixel_gun_3d_online.Cloud.Settings.{Routed, Verified, verify_outcome}

module _ {W : Type 0} (E : Env W) where
  -- The game's settings hold PhotonCloud, the region eu, and an AppID string that was made from the
  -- configured AppID.
  pub record RouteVerified (s : State W) : Type 0 where
    pub settings : Ptr
    pub app_id : Ptr
    pub settings_there : settings ≢ null
    pub app_id_there : app_id ≢ null
    pub made_in : W
    pub made : (E.il2cpp_string_new E.app_id made_in).0 ≡ app_id
    pub routed : Routed E settings app_id s
    pub flagged : s.cloud.cloud_ready ≡ true

  -- Nothing was applied and the flag is as before.
  abbrev pub Untouched : State W → State W → Type 0
  Untouched s s' =
      (s'.cloud.cloud_ready ≡ s.cloud.cloud_ready)
      × (s'.cloud.cloud_apply_count ≡ s.cloud.cloud_apply_count)

  abbrev pub Forced : State W → Bool → State W → Type 0
  Forced s true s' = RouteVerified s'
  Forced s false s' = (s'.cloud.cloud_ready ≡ false) ⊎ Untouched s s'

  settings-Untouched : (s : State W) → Ensures (current_server_settings E s) (λ p. Untouched s)
  unfolding current_server_settings
  settings-Untouched s = ground arith

  new_app_id_made :
      (s : State W)
      → Ensures
          (new_app_id E s)
          (λ p t. (p ≢ null → (w : W) × ((E.il2cpp_string_new E.app_id w).0 ≡ p)) × Untouched s t)
  unfolding new_app_id
  new_app_id_made s = elim (Bool-cases (is_null (s.slots string_new))) [
    | inl unbound ↦ rw unbound (λ ne. absurd (ne refl), (refl, refl))
    | inr there ↦ rw there (λ ne. (s.world, refl), (refl, refl))
  ]

  resolve-Untouched : (s : State W) → Ensures (resolve_use_cloud E s) (λ _. Untouched s)
  unfolding resolve_use_cloud
  resolve-Untouched s = ground arith

  refused : (point : String) (s : State W) → Ensures (refuse_missing_app_id E point s) (Forced s)
  unfolding refuse_missing_app_id
  refused point s = ground arith

  verified :
      (point : String) (settings app_id : Ptr) (s0 t : State W)
      → settings ≢ null
      → app_id ≢ null
      → (w : W) × ((E.il2cpp_string_new E.app_id w).0 ≡ app_id)
      → (ok : Bool) (t' : State W) → Verified E point settings app_id t ok t'
      → Forced s0 ok t'
  verified point settings app_id s0 t p q (w, made) true t' v = record {
    settings = settings;
    app_id = app_id;
    settings_there = p;
    app_id_there = q;
    made_in = w;
    made = made;
    routed = v.sound refl;
    flagged = v.flagged;
  }
  verified point settings app_id s0 t p q made false t' v = inl v.flagged

  applied :
      (point : String) (settings app_id : Ptr) (s0 s : State W)
      → settings ≢ null
      → app_id ≢ null
      → (w : W) × ((E.il2cpp_string_new E.app_id w).0 ≡ app_id)
      → Ensures (apply_route E point settings app_id s) (Forced s0)
  unfolding apply_route
  applied point settings app_id s0 s p q made =
      elim (Bool-cases (is_null s.cloud.use_cloud_fn || is_null s.cloud.use_cloud_method)) [
        | inl missing ↦ simp missing (inl refl)
        | inr there ↦ simp there (
            Ensures-bind (λ _ _. Unit {0}) (Forced s0) (E.invoke_void s.cloud.use_cloud_fn _ s) _
              (Ensures-any _ _ (λ _ _. tt))
              λ _ t _.
                Ensures-mono _ _ _ (verify_outcome E point settings app_id t)
                  λ ok t' v. verified point settings app_id s0 t p q made ok t' v)
      ]

  -- In a cloud build, a forced application that returns true leaves the game's settings verified:
  -- its read-back shows PhotonCloud, the region eu and the string made from the configured AppID,
  -- and the ready flag is set. One that returns false has cleared the flag, or has applied nothing
  -- and left the flag and the count alone.
  pub force_cloud_fail_closed :
      (point : String) (s : State W)
      → E.selfhosted ≡ false
      → Ensures (force_cloud E point true s) (Forced s)
  unfolding force_cloud
  force_cloud_fail_closed point s cloud = simp cloud (elim (Bool-cases (is_empty E.app_id)) [
    | inl unset ↦ simp unset (refused point s)
    | inr set ↦ simp set (
        Ensures-bind (λ _. Untouched s) (Forced s) (current_server_settings E s) _
          (settings-Untouched s)
          λ settings t u. elim (Bool-cases (is_null settings)) [
            | inl absent ↦ rw absent (inr u)
            | inr there ↦ rw there (
                Ensures-bind _ (Forced s) (new_app_id E t) _ (new_app_id_made t) λ app_id t' m.
                  elim (Bool-cases (is_null app_id)) [
                    | inl failed ↦ rw failed (inr (m.1.0 ∙ u.0, m.1.1 ∙ u.1))
                    | inr made ↦ rw made (
                        Ensures-bind (λ _ _. Unit {0}) (Forced s) (resolve_use_cloud E t') _
                          (Ensures-any _ _ (λ _ _. tt))
                          λ _ t'' _.
                            applied point settings app_id s t'' (nonzero_of _ there)
                              (nonzero_of _ made) (m.0 (nonzero_of _ made)))
                  ])
          ])
  ])
