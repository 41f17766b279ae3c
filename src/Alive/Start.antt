-- ===== src/Alive/Start.antt =====
-- After the start, a session lasts.
use old_pixel_gun_3d_online.Base.{
  ℕ, List, ◌≡◌, ◌≢◌, ◌⊎◌, inl, inr, false, Ptr, null, is_null, arith,
}
use old_pixel_gun_3d_online.State.{Env, State, Hook}
use old_pixel_gun_3d_online.State.Monad.{
  M, ◌>>=◌, Returns, Returns-Ensures, Returns-bind, Returns-mono,
}
use old_pixel_gun_3d_online.ElfSym.{Image}
use old_pixel_gun_3d_online.Hook.Laws.{Patches}
use old_pixel_gun_3d_online.Il2cpp.Resolve.Total.{SymbolsReturn}
use old_pixel_gun_3d_online.Init.Thread.{init_thread}
use old_pixel_gun_3d_online.Init.Waits.{Threads}
use old_pixel_gun_3d_online.Init.Clean.{IsClean, init_thread-IsClean}
use old_pixel_gun_3d_online.Init.Exports.{Called, Quiet, init_thread-Called}
use old_pixel_gun_3d_online.Game.{Session, leave, enter, play}
use old_pixel_gun_3d_online.Alive.{Lasts, Robust}
use old_pixel_gun_3d_online.Alive.Sessions.{Reaching, play-Lasts}

module _ {W A : Type 0} (E : Env W) (image : W → Image) (fuel : ℕ) where
  -- The start, and then a session of the game, which depends on what is hooked.
  abbrev pub start_and_play : (State W → Session A) → M W A
  start_and_play c = init_thread E image fuel >>= λ u t. play E (c t) t

original_there : (p : Ptr) → p ≢ null → is_null p ≡ false
original_there p ne = ground (arith, ne)

module _ {W : Type 0} (E : Env W) (laws : Patches E.platform)
    (threads : Threads E.platform laws) where
  -- Some entry leads to the hook.
  abbrev pub IsLedTo : State W → Hook → Type 0
  IsLedTo s h = (a : Ptr) × (laws.patched s.world a ≡ E.address_of h)

  -- Nothing is hooked, or sessions through what is hooked last.
  abbrev pub IsLive : State W → Type 0
  IsLive s = Quiet E laws threads s ⊎ Lasts E (IsLedTo s) false s

  module _ (hook_at : Ptr → Hook) (hook_at_address : (h : Hook) → hook_at (E.address_of h) ≡ h)
      (image : W → Image) (fuel : ℕ) (symbols : SymbolsReturn image fuel) where
    IsClean-Lasts :
        (ts : List Ptr) (t : State W)
        → Quiet E laws threads t ⊎ Called t
        → IsClean E laws threads hook_at hook_at_address ts t
        → IsLive t
    IsClean-Lasts ts t (inl quiet) clean = inl quiet
    IsClean-Lasts ts t (inr called) (safe, same) = inr (
      record {
        new_there = called.new_there;
        static_get_there = called.static_get_there;
        static_set_there = called.static_set_there;
        original_there = λ h (a, leads). original_there _ (safe a h leads).0;
      },
      λ e. ground (arith, e),
    )

    -- Under the laws of shadowhook and of the runtime's threads, if each lookup of a symbol of
    -- libil2cpp.so returns, and no entry leads to one of the library's hooks yet: `init_thread` runs to
    -- its end without a fault, on whatever path, and then either still no entry leads to a hook, or
    -- the exports that hooks call without a test are there, and so is the original of each hook that
    -- some entry leads to.
    init_thread-IsLive :
        (s : State W) → Quiet E laws threads s → Returns (init_thread E image fuel s) (λ _. IsLive)
    init_thread-IsLive s quiet =
        Returns-mono _ _ (init_thread E image fuel s)
          (Returns-Ensures _ _ (init_thread E image fuel s)
            (init_thread-IsClean E laws threads hook_at hook_at_address image fuel symbols s
              λ a h leads. absurd (quiet a h leads))
            (init_thread-Called E laws threads image fuel s quiet))
          λ u t (clean, called). IsClean-Lasts _ t called clean

    module _ {A : Type 0} where
      -- Where no entry leads to a hook, a session that calls only hooks that some entry leads to is over.
      Quiet-play :
          (t : State W)
          → Quiet E laws threads t
          → (c : Session A) → Reaching (IsLedTo t) false c
          → Returns (play E c t) (λ _ _. Unit {0})
      unfolding play
      Quiet-play t quiet (leave a) h = tt
      Quiet-play t quiet (enter e next) ((a, leads), on, later) = absurd (quiet a _ leads)

      -- Under the laws of shadowhook and of the runtime's threads, if each lookup of a symbol of
      -- libil2cpp.so returns, no entry leads to one of the library's hooks yet, machine code does not
      -- fault, keeps the library's pointers sound and PhotonNetwork initialised once the game's
      -- SetUpPhoton has initialised it, the fields that are read fit the buffer, and the game calls
      -- only hooks that some entry leads to after the start, those that touch static fields of
      -- PhotonNetwork after SetUpPhoton only: `init_thread` and then the session run to their end
      -- without a fault, on whatever path the start takes. PhotonNetwork need not be initialised at
      -- the start.
      pub start_and_play_returns :
          (robust : (t : State W) → Robust E (IsLedTo t)) (c : State W → Session A)
          → ((t : State W) → Reaching (IsLedTo t) false (c t))
          → (s : State W) → Quiet E laws threads s
          → Returns (start_and_play E image fuel c s) (λ _ _. Unit {0})
      start_and_play_returns robust c reaching s quiet =
          Returns-bind _ _ (init_thread E image fuel s) _ (init_thread-IsLive s quiet) λ u t live.
            elim live [
              | inl still ↦ Quiet-play t still (c t) (reaching t)
              | inr lasts ↦
                  Returns-mono _ _ (play E (c t) t)
                    (play-Lasts E (IsLedTo t) ⦃robust = robust t⦄ (c t) false (reaching t) t lasts)
                    λ a v l. tt
            ]
