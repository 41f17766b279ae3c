-- ===== src/Cloud/Gates.antt =====
-- The hooks on the game's connection entries, and when `force_cloud` does succeed.
use Prim.Native.String.{String}
use old_pixel_gun_3d_online.Base.{
  ◌≡◌, Option-cases, refl, inl, inr, true, false, not, Option, none, some, [], ◌∷◌, Ptr, ℤ,
}
use old_pixel_gun_3d_online.State.{
  Env, State, ptr, num, connect_scene_go, connection_control_connect, game_connect_tier,
  game_connect_squad,
}
use old_pixel_gun_3d_online.State.Monad.{M, Ensures-eq, and_then, branch, loge, pure}
use old_pixel_gun_3d_online.Cloud.{
  force_cloud, call_original, hook_connect_scene_go, hook_connection_control_connect,
  hook_game_connect_tier, hook_game_connect_squad,
}
use old_pixel_gun_3d_online.Cloud.Force.{RouteVerified, Forced, force_cloud_fail_closed}

module _ {W : Type 0} (E : Env W) where
  -- A gate in front of an original: a fault, a refusal that comes straight from a failed
  -- `force_cloud`, or the original, called where the route is verified.
  pub data Gate {A : Type 0} (point : String) (refuse original : M W A) (s : State W)
      (r : Option (A × State W)) : Type 0 where
    faulted : r ≡ none → Gate point refuse original s r
    blocked :
        (t : State W)
        → force_cloud E point true s ≡ some (false, t)
        → r ≡ refuse t
        → Gate point refuse original s r
    passed : (t : State W) → RouteVerified E t → r ≡ original t → Gate point refuse original s r

  module _ (cloud : E.selfhosted ≡ false) where
    gate :
        {A : Type 0} (point : String) (refuse original : M W A) (s : State W)
        → Gate point refuse original s
            (and_then (force_cloud E point true s) (λ forced. branch (not forced) refuse original))
    gate point refuse original s = elim (Option-cases (force_cloud E point true s)) [
      | inl fault ↦ rw fault (faulted refl)
      | inr ((true, t), e) ↦
          rw e
            (passed t (Ensures-eq (Forced E s) _ (force_cloud_fail_closed E point s cloud) e) refl)
      | inr ((false, t), e) ↦ rw e (blocked t e refl)
    ]

    -- In a cloud build each of the four connection hooks faults, or refuses after `force_cloud` has
    -- failed and calls no original, or calls its original in a state whose route is verified.
    pub hooks-Gate :
        (self method : Ptr) (tier : ℤ) (s : State W)
        → Gate "ConnectScene.HandleGoBtnClicked"
            (loge "cloud-force: blocked ConnectScene.HandleGoBtnClicked" [])
            (call_original E E.invoke_void connect_scene_go (ptr self ∷ ptr method ∷ []))
            s
            (hook_connect_scene_go E self method s)
          × Gate "ConnectionControl.ConnectToPhoton"
              (loge "cloud-force: blocked ConnectionControl.ConnectToPhoton" [])
              (call_original E E.invoke_void connection_control_connect
                (ptr self ∷ ptr method ∷ []))
              s
              (hook_connection_control_connect E self method s)
          × Gate "GameConnect.ConnectToPhoton(tier)"
              (pure false)
              (call_original E E.invoke_bool game_connect_tier (num tier ∷ ptr method ∷ []))
              s
              (hook_game_connect_tier E tier method s)
          × Gate "GameConnect.ConnectToPhotonSquad"
              (pure false)
              (call_original E E.invoke_bool game_connect_squad (ptr method ∷ []))
              s
              (hook_game_connect_squad E method s)
    unfolding hook_connect_scene_go hook_connection_control_connect hook_game_connect_tier
        hook_game_connect_squad
    hooks-Gate self method tier s = (gate _ _ _ s, gate _ _ _ s, gate _ _ _ s, gate _ _ _ s)
