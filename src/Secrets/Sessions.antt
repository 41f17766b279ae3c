-- ===== src/Secrets/Sessions.antt =====
-- What two sessions of the game leave in the log.
use old_pixel_gun_3d_online.State.{Env, State}
use old_pixel_gun_3d_online.Game.{
  Request, traced, enter_set_up_photon, enter_select_app_id, enter_connect_scene_go,
  enter_connection_control_connect, enter_game_connect_tier, enter_game_connect_squad,
  enter_friends_update, Answer, Session, leave, enter, serve, play,
}
use old_pixel_gun_3d_online.Secrets.{Secrets, Prepared, SameRuns, Twins}
use old_pixel_gun_3d_online.Secrets.Rules.{Blind, Blind-pure, Blind-bind}
use old_pixel_gun_3d_online.Secrets.Hooks.{ShownArgs, Blind-hooked, Blind-hook_set_up_photon}
use old_pixel_gun_3d_online.Secrets.Override.{Blind-hook_select_app_id}
use old_pixel_gun_3d_online.Secrets.Gates.{
  Blind-hook_connect_scene_go, Blind-hook_connection_control_connect, Blind-hook_game_connect_tier,
  Blind-hook_game_connect_squad, Blind-hook_friends_update,
}

module _ {W : Type 0} (V : Secrets W) where
  abbrev pub ShownRequest : Request → Type 0
  ShownRequest (traced c) = ShownArgs V c
  ShownRequest (enter_set_up_photon settings method) = Unit
  ShownRequest (enter_select_app_id settings method) = Unit
  ShownRequest (enter_connect_scene_go self method) = Unit
  ShownRequest (enter_connection_control_connect self method) = Unit
  ShownRequest (enter_game_connect_tier tier method) = Unit
  ShownRequest (enter_game_connect_squad method) = Unit
  ShownRequest (enter_friends_update self method) = Unit

module _ {W : Type 0} (E F : Env W) (V : Secrets W) ⦃twins : Twins E F V⦄ where
  Blind-serve : (e : Request) → ShownRequest V e → Blind V (serve E e) (serve F e)
  Blind-serve (traced c) h = Blind-hooked E F V c h
  Blind-serve (enter_set_up_photon settings method) h =
      Blind-hook_set_up_photon E F V settings method
  Blind-serve (enter_select_app_id settings method) h =
      Blind-hook_select_app_id E F V settings method
  Blind-serve (enter_connect_scene_go self method) h = Blind-hook_connect_scene_go E F V self method
  Blind-serve (enter_connection_control_connect self method) h =
      Blind-hook_connection_control_connect E F V self method
  Blind-serve (enter_game_connect_tier tier method) h =
      Blind-hook_game_connect_tier E F V tier method
  Blind-serve (enter_game_connect_squad method) h = Blind-hook_game_connect_squad E F V method
  Blind-serve (enter_friends_update self method) h = Blind-hook_friends_update E F V self method

module _ {W A : Type 0} (V : Secrets W) where
  -- The game passes no secret where the argument's text is logged.
  abbrev pub ShownSession : Session A → Type 0
  ShownSession (leave a) = Unit
  ShownSession (enter e next) = ShownRequest V e × ((a : Answer e) → ShownSession (next a))

module _ {W A : Type 0} (E F : Env W) (V : Secrets W) ⦃twins : Twins E F V⦄ where
  Blind-play : (c : Session A) → ShownSession V c → Blind V (play E c) (play F c)
  unfolding play
  Blind-play (leave a) h = Blind-pure a
  Blind-play (enter e next) (now, later) =
      Blind-bind (serve E e) (serve F e) (λ a. play E (next a)) (λ a. play F (next a))
        (Blind-serve E F V e now) λ a. Blind-play (next a) (later a)

  -- Two builds have AppIDs of the same length and the same fingerprint, and run in two processes
  -- that are alike but for the texts of secrets. Then a session of the game that calls the hooked
  -- entries in any order, and passes no secret where an argument's text is logged, faults in both
  -- or returns the same result in both, with the same lines in the log.
  pub play-SameRuns :
      (c : Session A)
      → ShownSession V c
      → (s : State W) (u : W) → V.Alike s.world u
      → Prepared V s
      → SameRuns V (play E c s) (play F c (record s { world = u }))
  play-SameRuns c h s u l p = (Blind-play c h).at s u l p
