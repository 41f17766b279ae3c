-- ===== src/Game.antt =====
-- The game as a client of all the entries that photon_hooks.cpp and cloud_guard.h hook.
use old_pixel_gun_3d_online.Base.{Ptr, ℤ, Bool}
use old_pixel_gun_3d_online.State.{Env}
use old_pixel_gun_3d_online.State.Monad.{M, ◌>>=◌, pure}
use old_pixel_gun_3d_online.Cloud.{
  hook_connect_scene_go, hook_connection_control_connect, hook_game_connect_tier,
  hook_game_connect_squad, hook_friends_update,
}
use old_pixel_gun_3d_online.Photon.{hook_select_app_id}
use old_pixel_gun_3d_online.Photon.Hooks.{hook_set_up_photon}
use old_pixel_gun_3d_online.Photon.Hooks.Client.{Call, Result, hooked}

-- A call of one of the twenty-two entries.
pub data Request : Type 0 where
  traced : Call → Request
  enter_set_up_photon : (settings method : Ptr) → Request
  enter_select_app_id : (settings method : Ptr) → Request
  enter_connect_scene_go : (self method : Ptr) → Request
  enter_connection_control_connect : (self method : Ptr) → Request
  enter_game_connect_tier : (tier : ℤ) (method : Ptr) → Request
  enter_game_connect_squad : (method : Ptr) → Request
  enter_friends_update : (self method : Ptr) → Request

abbrev pub Answer : Request → Type 0
Answer (traced c) = Result c
Answer (enter_set_up_photon settings method) = Unit {0}
Answer (enter_select_app_id settings method) = Ptr
Answer (enter_connect_scene_go self method) = Unit {0}
Answer (enter_connection_control_connect self method) = Unit {0}
Answer (enter_game_connect_tier tier method) = Bool
Answer (enter_game_connect_squad method) = Bool
Answer (enter_friends_update self method) = Unit {0}

-- What the game calls next may depend on what it got.
pub data Session (A : Type 0) : Type 0 where
  leave : A → Session A
  enter : (e : Request) → (Answer e → Session A) → Session A

module _ {W : Type 0} (E : Env W) where
  abbrev pub serve : (e : Request) → M W (Answer e)
  serve (traced c) = hooked E c
  serve (enter_set_up_photon settings method) = hook_set_up_photon E settings method
  serve (enter_select_app_id settings method) = hook_select_app_id E settings method
  serve (enter_connect_scene_go self method) = hook_connect_scene_go E self method
  serve (enter_connection_control_connect self method) =
      hook_connection_control_connect E self method
  serve (enter_game_connect_tier tier method) = hook_game_connect_tier E tier method
  serve (enter_game_connect_squad method) = hook_game_connect_squad E method
  serve (enter_friends_update self method) = hook_friends_update E self method

module _ {W A : Type 0} (E : Env W) where
  unfoldable pub play : Session A → M W A
  play (leave a) = pure a
  play (enter e next) = serve E e >>= λ a. play (next a)
