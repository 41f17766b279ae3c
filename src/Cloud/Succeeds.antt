-- ===== src/Cloud/Succeeds.antt =====
-- When `force_cloud` does succeed, and the builds in which it does nothing.
use Prim.Native.String.{String}
use old_pixel_gun_3d_online.Base.{
  ◌≡◌, ◌||◌, Bool-cases, refl, inl, inr, Bool, true, false, Option, some, [], ◌∷◌, Bytes, Ptr,
  is_null, ℤ, pos,
}
use old_pixel_gun_3d_online.State.{Env, State, ptr, num, string_length}
use old_pixel_gun_3d_online.Il2cpp.Fields.{read_field-some}
use old_pixel_gun_3d_online.Cloud.{
  force_cloud, current_server_settings, new_app_id, resolve_use_cloud, apply_route,
  refuse_missing_app_id, verify, report, verdict, is_empty,
}
use old_pixel_gun_3d_online.Cloud.Settings.{Routed, verdict_complete}

module _ {W : Type 0} (E : Env W) (point : String) where
  reported_ready :
      (host region stored : Option Bytes) (app_id : Ptr) (chars : ℤ) (s : State W)
      → verdict host region stored app_id ≡ true
      → (s' : State W) × (report E point host region stored app_id chars s ≡ some (true, s'))
        × (s'.cloud.cloud_ready ≡ true)
        × (s'.world ≡ s.world)
  unfolding report
  reported_ready host region stored app_id chars s e = rw e (_, refl, refl, refl)

  verify_ready :
      (settings app_id : Ptr) (s : State W)
      → Routed E settings app_id s
      → (s' : State W) × (verify E point settings app_id s ≡ some (true, s'))
        × (s'.cloud.cloud_ready ≡ true)
        × (s'.world ≡ s.world)
  unfolding verify
  verify_ready settings app_id s r =
      let good =
        verdict_complete (some r.host.0) (some r.region.0) (some r.app.0) app_id
          (r.host.0, refl, r.host.2) (r.region.0, refl, r.region.2) (r.app.0, refl, r.app.2) in
      rw
        (
          read_field-some E 4 settings "HostType" s r.host.1,
          read_field-some E 4 settings "PreferredRegion" s r.region.1,
          read_field-some E 4 settings "AppID" s r.app.1,
        )
        (elim (Bool-cases (is_null (s.slots string_length))) [
          | inl unbound ↦ rw unbound (reported_ready _ _ _ app_id _ s good)
          | inr there ↦ rw there (reported_ready _ _ _ app_id _ s good)
        ])

  -- Progress. In a cloud build with an AppID, if the settings object is there, the AppID string can
  -- be made, `UseCloud(appId, eu)` is found, and calling it returns and routes the settings, then
  -- `force_cloud` returns true with the ready flag set, whatever the flag was before.
  pub force_cloud_succeeds :
      (settings app_id : Ptr) (s s1 s2 s3 s4 : State W)
      → E.selfhosted ≡ false
      → is_empty E.app_id ≡ false
      → current_server_settings E s ≡ some (settings, s1)
      → is_null settings ≡ false
      → new_app_id E s1 ≡ some (app_id, s2)
      → is_null app_id ≡ false
      → resolve_use_cloud E s2 ≡ some (tt, s3)
      → is_null s3.cloud.use_cloud_fn || is_null s3.cloud.use_cloud_method ≡ false
      → E.invoke_void s3.cloud.use_cloud_fn
          (ptr settings ∷ ptr app_id ∷ num (pos 0) ∷ ptr s3.cloud.use_cloud_method ∷ [])
          s3
        ≡ some (tt, s4)
      → Routed E settings app_id s4
      → (s' : State W) × (force_cloud E point true s ≡ some (true, s'))
        × (s'.cloud.cloud_ready ≡ true)
        × (s'.world ≡ s4.world)
  unfolding force_cloud apply_route
  force_cloud_succeeds settings app_id s s1 s2 s3 s4 cloud set e1 n1 e2 n2 e3 n3 e4 routed =
      simp (cloud, set, e1, n1, e2, n2, e3, n3, e4) (verify_ready settings app_id s4 routed)

  -- A selfhosted build, and a call that does not force on a route that is already marked ready,
  -- return true and change nothing; a cloud build without an AppID returns false, logs that once,
  -- and touches neither the world nor the flag.
  pub force_cloud_short_cuts :
      (reapply : Bool) (s : State W)
      → (E.selfhosted ≡ true → force_cloud E point reapply s ≡ some (true, s))
        × (s.cloud.cloud_ready ≡ true → force_cloud E point false s ≡ some (true, s))
        × (E.selfhosted ≡ false
            → is_empty E.app_id ≡ true
            → (s' : State W) × (force_cloud E point true s ≡ some (false, s'))
              × (s'.world ≡ s.world)
              × (s'.cloud.cloud_ready ≡ s.cloud.cloud_ready)
              × (s'.cloud.missing_app_id_logged ≡ true)
              × (s.cloud.missing_app_id_logged ≡ true → s'.log ≡ s.log))
  unfolding force_cloud refuse_missing_app_id
  force_cloud_short_cuts reapply s = (
    λ selfhosted. simp selfhosted,
    λ ready. elim (Bool-cases E.selfhosted) [
      | inl selfhosted ↦ simp selfhosted
      | inr cloud ↦ simp (cloud, ready)
    ],
    λ cloud unset. elim (Bool-cases s.cloud.missing_app_id_logged) [
      | inl old ↦ simp (cloud, unset, old) (_, refl, refl, refl, refl, λ _. refl)
      | inr new ↦ simp (cloud, unset, new) (_, refl, refl, refl, refl, λ e. cc)
    ],
  )
