-- ===== src/Checks/Alive.antt =====
-- Sessions in a runtime whose machine code returns, and its start.
use text.Mathlib.Text.{◌==◌ as same_text}
use old_pixel_gun_3d_online.Hook.Laws.{Patches}
use old_pixel_gun_3d_online.Init.Waits.{Threads}
use old_pixel_gun_3d_online.Base.{◌&&◌, if◌then◌else◌, true, false, ◌==◌, ◌≡◌, Bool, refl, arith}
use old_pixel_gun_3d_online.State.{Env, Platform, State, Hook}
use old_pixel_gun_3d_online.State.Monad.{Returns}
use old_pixel_gun_3d_online.Photon.Hooks.Client.{call_use_cloud}
use old_pixel_gun_3d_online.Game.{
  Session, leave, enter, traced, enter_set_up_photon, enter_game_connect_squad,
  enter_friends_update, play,
}
use old_pixel_gun_3d_online.Init.Exports.{Quiet}
use old_pixel_gun_3d_online.Alive.{Lasts, Robust}
use old_pixel_gun_3d_online.Alive.Sessions.{Reaching, play-Lasts}
use old_pixel_gun_3d_online.Alive.Start.{IsLedTo, start_and_play, start_and_play_returns}
use old_pixel_gun_3d_online.Checks.Toy.{
  platform, World, toy, start, patch_at, patches_of_toy, threads_of_toy, hook_at, hook_at_address,
}
use old_pixel_gun_3d_online.Checks.ElfSym.{image}
use old_pixel_gun_3d_online.Checks.Start.{symbols}

-- Every hook is reached.
abbrev Reached : Hook → Type 0
Reached h = Unit

-- The toy where PhotonNetwork is initialised once the host type is set, as the machine code at any
-- address does, and SetUpPhoton has an entry of its own, at 89.
abbrev lazy_platform : Platform World
lazy_platform = record platform {
  network_initialized = λ w. w.host == 1;
  il2cpp_class_get_method_from_name = λ k name n w. if same_text name "SetUpPhoton" then 88 else 90;
  pointer_at = λ p w. if p == 88 then 89 else 91;
}

abbrev lazy : Env World
lazy = record toy { platform = lazy_platform }

abbrev robust_lazy : (IsReached : Hook → Type 0) → Robust lazy IsReached
robust_lazy IsReached = record {
  voids = λ up fn args s there l. (l.0, λ e. refl);
  bools = λ up fn args s there l. l;
  ptrs = λ up fn args s there l. l;
  ints = λ up fn args s there l. l;
  sets_up = λ args s there l. (l.0, λ e. refl);
  stays = record {
    new_stays = λ text w e. e;
    set_stays = λ object field value w e. e;
    static_set_stays = λ field value w e. e;
  };
  narrow = λ object field w. omega arith;
}

instance robust_reached : Robust lazy Reached
robust_reached = robust_lazy Reached

abbrev patches : Patches lazy_platform
patches = record {
  patched = patches_of_toy.patched;
  init_keeps = patches_of_toy.init_keeps;
  hook_fails = patches_of_toy.hook_fails;
  hook_sets = patches_of_toy.hook_sets;
  hook_others = patches_of_toy.hook_others;
  unhook_restores = patches_of_toy.unhook_restores;
}

abbrev threads : Threads lazy_platform patches
threads = record {
  attached = threads_of_toy.attached;
  sleep_patched = threads_of_toy.sleep_patched;
  sleep_attached = threads_of_toy.sleep_attached;
  init_attached = threads_of_toy.init_attached;
  hook_attached = threads_of_toy.hook_attached;
  unhook_attached = threads_of_toy.unhook_attached;
  attach_patched = threads_of_toy.attach_patched;
  attach_fails = threads_of_toy.attach_fails;
  attach_adds = threads_of_toy.attach_adds;
  detach_patched = threads_of_toy.detach_patched;
  detach_removes = threads_of_toy.detach_removes;
}

start-Lasts : Lasts lazy Reached false start
start-Lasts = (
  record {
    new_there = refl;
    static_get_there = refl;
    static_set_there = refl;
    original_there = λ h r. refl;
  },
  λ e. ground (arith, e),
)

-- The game sets Photon up, passes an AppID to UseCloud, runs an update and connects a squad.
abbrev visit : Session Bool
visit = enter (enter_set_up_photon 40 41) λ _.
    enter (traced (call_use_cloud 50 0 42))
      λ _. enter (enter_friends_update 44 45) λ _. enter (enter_game_connect_squad 43) leave

play-Lasts_example : Returns (play lazy visit start) (λ _. Lasts lazy Reached false)
play-Lasts_example =
    play-Lasts lazy Reached visit false
      (tt, tt, λ _. (tt, tt, λ _. (tt, tt, λ _. (tt, refl, λ b. tt)))) start start-Lasts

start-Quiet : Quiet lazy patches threads start
start-Quiet a h leads = omega (arith, leads)

-- Do the entries at 89 and 91 lead to the hooks on SetUpPhoton and on ConnectToPhotonSquad?
abbrev both_hooked : State World → Bool
both_hooked t = patch_at t.world.patches 89 == 1001 && patch_at t.world.patches 91 == 1021

-- If so, the game calls the one and then the other.
abbrev squad_if : Bool → Session Bool
squad_if false = leave false
squad_if true = enter (enter_set_up_photon 40 41) λ _. enter (enter_game_connect_squad 43) leave

squad_reached :
    (t : State World) (b : Bool)
    → both_hooked t ≡ b
    → Reaching (IsLedTo lazy patches threads t) false (squad_if b)
squad_reached t false e = tt
squad_reached t true e =
    ((89, ground (arith, e)), tt, λ _. ((91, ground (arith, e)), refl, λ b. tt))

start_and_play_returns_example :
    Returns
      (start_and_play lazy (λ w. image) 9 (λ t. squad_if (both_hooked t)) start)
      (λ _ _. Unit {0})
start_and_play_returns_example =
    start_and_play_returns lazy patches threads hook_at hook_at_address (λ w. image) 9 symbols
      (λ t. robust_lazy _) (λ t. squad_if (both_hooked t))
      (λ t. squad_reached t (both_hooked t) refl) start start-Quiet
