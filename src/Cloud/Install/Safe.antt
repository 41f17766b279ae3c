-- ===== src/Cloud/Install/Safe.antt =====
-- After `install_hooks` no patched entry leads to a hook whose original is missing.
use old_pixel_gun_3d_online.Base.{
  ℕ, ◌≡◌, ◌≢◌, inl, inr, true, false, some, List, [], ◌∷◌, All, Ptr, arith, Bool-cases,
}
use old_pixel_gun_3d_online.State.{
  Env, State, Hook, friends_update, connect_scene_go, connection_control_connect, game_connect_tier,
  game_connect_squad,
}
use old_pixel_gun_3d_online.State.Monad.{Returns, Returns-bind}
use old_pixel_gun_3d_online.Hook.{ManagedMethod, install}
use old_pixel_gun_3d_online.Hook.Laws.{Patches}
use old_pixel_gun_3d_online.Hook.Safe.{Safe, install-Safe}
use old_pixel_gun_3d_online.Cloud.Install.{install_hooks, install_guard, install_optional}

abbrev pub guard_hooks : List Hook
guard_hooks =
    friends_update ∷ connect_scene_go ∷ connection_control_connect ∷ game_connect_tier
    ∷ game_connect_squad ∷ []

module _ {W : Type 0} (E : Env W) (laws : Patches E.platform) (hook_at : Ptr → Hook)
    (hook_at_address : (h : Hook) → hook_at (E.address_of h) ≡ h) where
  abbrev SafeFor : List Hook → State W → Type 0
  SafeFor = Safe E laws hook_at hook_at_address

  install_optional-Safe :
      (target : ManagedMethod) (h : Hook) (to_come : List Hook) (n : ℕ) (s : State W)
      → All (λ k. h ≢ k) to_come
      → SafeFor (h ∷ to_come) s
      → Returns (install_optional E target h n s) (λ _ s'. SafeFor to_come s')
  unfolding install_optional
  install_optional-Safe target h to_come n s fresh safe =
      Returns-bind _ _ (install E target (E.address_of h) (some h) false s) _
        (install-Safe E laws hook_at hook_at_address target h to_come false s fresh safe)
        λ done t kept. kept

  install_guard-Safe :
      (s : State W) → SafeFor guard_hooks s → Returns (install_guard E s) (λ _ s'. SafeFor [] s')
  unfolding install_guard
  install_guard-Safe s safe =
      Returns-bind _ (λ _ s'. SafeFor [] s')
        (install E _ (E.address_of friends_update) (some friends_update) true s) _
        (install-Safe E laws hook_at hook_at_address _ friends_update
          (connect_scene_go ∷ connection_control_connect ∷ game_connect_tier ∷ game_connect_squad
            ∷ [])
          true s (ground arith) safe)
        λ guard t safe.
          Returns-bind _ (λ _ s'. SafeFor [] s') (install_optional E _ connect_scene_go _ t) _
            (install_optional-Safe _ connect_scene_go
              (connection_control_connect ∷ game_connect_tier ∷ game_connect_squad ∷ []) _ t
              (ground arith) safe)
            λ n t safe.
              Returns-bind _ (λ _ s'. SafeFor [] s')
                (install_optional E _ connection_control_connect n t) _
                (install_optional-Safe _ connection_control_connect
                  (game_connect_tier ∷ game_connect_squad ∷ []) n t (ground arith) safe)
                λ n t safe.
                  Returns-bind _ (λ _ s'. SafeFor [] s')
                    (install_optional E _ game_connect_tier n t) _
                    (install_optional-Safe _ game_connect_tier (game_connect_squad ∷ []) n t
                      (ground arith) safe)
                    λ n t safe.
                      Returns-bind _ (λ _ s'. SafeFor [] s')
                        (install_optional E _ game_connect_squad n t) _
                        (install_optional-Safe _ game_connect_squad [] n t tt safe) λ n t safe. safe

  -- Under the laws of shadowhook and with the hook functions at different addresses: if no entry
  -- led to one of the guard's hooks before, and the other hooks that entries led to had originals,
  -- `install_hooks` returns, and afterwards each entry that leads to a hook leads to one whose
  -- original can be called.
  pub install_hooks-Safe :
      (s : State W) → SafeFor guard_hooks s → Returns (install_hooks E s) (λ _ s'. SafeFor [] s')
  unfolding install_hooks
  install_hooks-Safe s safe = elim (Bool-cases E.selfhosted) [
    | inl selfhosted ↦ simp selfhosted (λ a h leads. ((safe a h leads).0, tt))
    | inr cloud ↦ simp cloud (install_guard-Safe s safe)
  ]
