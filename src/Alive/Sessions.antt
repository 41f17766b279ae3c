-- ===== src/Alive/Sessions.antt =====
-- A session of the game comes to its end.
use old_pixel_gun_3d_online.Base.{◌≡◌, refl, Bool, true, false, arith}
use old_pixel_gun_3d_online.Photon.Hooks.Client.{Allowed}
use old_pixel_gun_3d_online.State.{
  Env, State, Hook, select_app_id, set_up_photon, friends_update, connect_scene_go,
  connection_control_connect, game_connect_tier, game_connect_squad,
}
use old_pixel_gun_3d_online.State.Monad.{Returns, Returns-bind, Returns-mono}
use old_pixel_gun_3d_online.Game.{
  Request, traced, enter_set_up_photon, enter_select_app_id, enter_connect_scene_go,
  enter_connection_control_connect, enter_game_connect_tier, enter_game_connect_squad,
  enter_friends_update, Answer, Session, leave, enter, serve, play,
}
use old_pixel_gun_3d_online.Alive.{Lasts, Robust}
use old_pixel_gun_3d_online.Alive.Hooks.{hook_of, Survives-hooked, Survives-hook_select_app_id}
use old_pixel_gun_3d_online.Alive.SetUp.{set_up-Lasts}
use old_pixel_gun_3d_online.Alive.Gates.{
  Survives-hook_connect_scene_go, Survives-hook_connection_control_connect,
  Survives-hook_game_connect_tier, Survives-hook_game_connect_squad, Survives-hook_friends_update,
}

-- The hook behind an entry.
abbrev pub hook_behind : Request → Hook
hook_behind (traced c) = hook_of c
hook_behind (enter_set_up_photon settings method) = set_up_photon
hook_behind (enter_select_app_id settings method) = select_app_id
hook_behind (enter_connect_scene_go self method) = connect_scene_go
hook_behind (enter_connection_control_connect self method) = connection_control_connect
hook_behind (enter_game_connect_tier tier method) = game_connect_tier
hook_behind (enter_game_connect_squad method) = game_connect_squad
hook_behind (enter_friends_update self method) = friends_update

-- Whether PhotonNetwork is initialised behind the call, if it is in front of it only as `up` says.
abbrev pub up_after : Request → Bool → Bool
up_after (traced c) up = up
up_after (enter_set_up_photon settings method) up = true
up_after (enter_select_app_id settings method) up = up
up_after (enter_connect_scene_go self method) up = up
up_after (enter_connection_control_connect self method) up = up
up_after (enter_game_connect_tier tier method) up = up
up_after (enter_game_connect_squad method) up = up
up_after (enter_friends_update self method) up = up

-- The hooks that touch the static fields of PhotonNetwork are entered once it is initialised.
abbrev pub Permitted : Bool → Request → Type 0
Permitted up (traced c) = Allowed (up ≡ true) c
Permitted up (enter_set_up_photon settings method) = Unit
Permitted up (enter_select_app_id settings method) = Unit
Permitted up (enter_connect_scene_go self method) = up ≡ true
Permitted up (enter_connection_control_connect self method) = up ≡ true
Permitted up (enter_game_connect_tier tier method) = up ≡ true
Permitted up (enter_game_connect_squad method) = up ≡ true
Permitted up (enter_friends_update self method) = Unit

up_stays : (e : Request) (up : Bool) → up ≡ true → up_after e up ≡ true
up_stays (traced c) up h = h
up_stays (enter_set_up_photon settings method) up h = refl
up_stays (enter_select_app_id settings method) up h = h
up_stays (enter_connect_scene_go self method) up h = h
up_stays (enter_connection_control_connect self method) up h = h
up_stays (enter_game_connect_tier tier method) up h = h
up_stays (enter_game_connect_squad method) up h = h
up_stays (enter_friends_update self method) up h = h

module _ {W : Type 0} (E : Env W) (IsReached : Hook → Type 0) ⦃robust : Robust E IsReached⦄ where
  Lasts-weaken :
      (up later : Bool)
      → (up ≡ true → later ≡ true)
      → (s : State W) → Lasts E IsReached later s
      → Lasts E IsReached up s
  Lasts-weaken up later f s l = (l.0, λ e. l.1 (f e))

  serve-Lasts :
      (e : Request) (up : Bool)
      → IsReached (hook_behind e)
      → Permitted up e
      → (s : State W) → Lasts E IsReached up s
      → Returns (serve E e s) (λ _. Lasts E IsReached (up_after e up))
  serve-Lasts (traced c) up h on = (Survives-hooked E IsReached up c on h).at
  serve-Lasts (enter_set_up_photon settings method) up h on = λ s l.
      set_up-Lasts E IsReached settings method h s
        (Lasts-weaken false up (λ e. ground (arith, e)) s l)
  serve-Lasts (enter_select_app_id settings method) up h on =
      (Survives-hook_select_app_id E IsReached up settings method h).at
  serve-Lasts (enter_connect_scene_go self method) up h on =
      (Survives-hook_connect_scene_go E IsReached up self method h on).at
  serve-Lasts (enter_connection_control_connect self method) up h on =
      (Survives-hook_connection_control_connect E IsReached up self method h on).at
  serve-Lasts (enter_game_connect_tier tier method) up h on =
      (Survives-hook_game_connect_tier E IsReached up tier method h on).at
  serve-Lasts (enter_game_connect_squad method) up h on =
      (Survives-hook_game_connect_squad E IsReached up method h on).at
  serve-Lasts (enter_friends_update self method) up h on =
      (Survives-hook_friends_update E IsReached up self method h).at

module _ {A : Type 0} (IsReached : Hook → Type 0) where
  -- The game calls only hooks that it can reach. `up` says that PhotonNetwork is initialised at the
  -- start; if not, the hooks that touch its static fields are called after SetUpPhoton only.
  abbrev pub Reaching : Bool → Session A → Type 0
  Reaching up (leave a) = Unit
  Reaching up (enter e next) =
      IsReached (hook_behind e)
      × Permitted up e
      × ((a : Answer e) → Reaching (up_after e up) (next a))

module _ {W A : Type 0} (E : Env W) (IsReached : Hook → Type 0) ⦃robust : Robust E IsReached⦄ where
  -- Machine code does not fault, keeps the library's pointers sound and PhotonNetwork initialised once
  -- it is, which it is behind the game's SetUpPhoton; and the fields that are read fit the buffer.
  -- Then from a state in which the three exports that the hooks call without a test
  -- are there, and the originals of the hooks that the game can reach, a session that calls those
  -- hooks in any order comes to its end without a fault, and the pointers are sound again, provided
  -- that the six hooks that touch static fields of PhotonNetwork are called when it is initialised: it
  -- is so at the start (`up`), or SetUpPhoton has been called before.
  pub play-Lasts :
      (c : Session A) (up : Bool)
      → Reaching IsReached up c
      → (s : State W) → Lasts E IsReached up s
      → Returns (play E c s) (λ _. Lasts E IsReached up)
  unfolding play
  play-Lasts (leave a) up h s l = l
  play-Lasts (enter e next) up (now, on, later) s l =
      Returns-bind _ _ (serve E e s) _ (serve-Lasts E IsReached e up now on s l) λ a t l'.
        Returns-mono _ _ (play E (next a) t) (play-Lasts (next a) (up_after e up) (later a) t l')
          λ b u. Lasts-weaken E IsReached up (up_after e up) (up_stays e up) u
