-- ===== src/Cloud/Install/Counts.antt =====
-- What a true result of `install_hooks` stands for.
use old_pixel_gun_3d_online.Base.{
  leb→le, ℕ, ◌+◌, ◌≤◌, ◌≡◌, ◌≢◌, ◌⊎◌, refl, sym, ◌∙◌, Bool, true, false, ◌&&◌, leb, some, List, [],
  ◌∷◌, All, null, arith, if◌then◌else◌,
}
use old_pixel_gun_3d_online.State.{
  Env, State, Hook, friends_update, connect_scene_go, connection_control_connect, game_connect_tier,
  game_connect_squad,
}
use old_pixel_gun_3d_online.State.Monad.{Returns, Returns-bind}
use old_pixel_gun_3d_online.Hook.{ManagedMethod, install}
use old_pixel_gun_3d_online.Hook.Laws.{Patches}
use old_pixel_gun_3d_online.Hook.Install.{Outcome, install-Outcome}
use old_pixel_gun_3d_online.Cloud.Install.{install_hooks, install_guard, install_optional}

module _ {W : Type 0} (E : Env W) (laws : Patches E.platform) where
  -- The four hooks on the game's connection entries.
  abbrev pub IsGate : Hook → Type 0
  IsGate h =
      (h ≡ connect_scene_go)
      ⊎ (h ≡ connection_control_connect)
      ⊎ (h ≡ game_connect_tier)
      ⊎ (h ≡ game_connect_squad)

  -- The count of installed hooks, the guard's own included, stands for hooks that are there, none of
  -- which is still to come.
  record Counted (guard : Bool) (to_come : List Hook) (n : ℕ) (s : State W) : Type 0 where
    own : guard ≡ true → s.originals friends_update ≢ null
    gate :
        (if guard then 2 else 1) ≤ n
        → (h : Hook) × IsGate h × All (λ k. h ≢ k) to_come × (s.originals h ≢ null)

  step :
      (guard : Bool) (h : Hook) (to_come : List Hook) (n : ℕ) (s : State W) (done : Bool)
      (s' : State W)
      → IsGate h
      → h ≢ friends_update
      → All (λ k. h ≢ k) to_come
      → Counted guard (h ∷ to_come) n s
      → Outcome E laws (E.address_of h) h s done s'
      → Counted guard to_come (if done then n + 1 else n) s'
  step guard h to_come n s true s' g other fresh c o = record {
    own = λ e z. c.own e (sym (o.others friends_update (λ x. other (sym x))) ∙ z);
    gate = λ m. (h, g, fresh, o.trampoline);
  }
  step guard h to_come n s false s' g other fresh c o = record {
    own = λ e z. c.own e (sym (o.others friends_update (λ x. other (sym x))) ∙ z);
    gate = λ m.
        let (k, ne, (here, rest), there) = c.gate m in
        (k, ne, rest, λ z. there (sym (o.others k here) ∙ z));
  }

  install_optional-Counted :
      (guard : Bool) (target : ManagedMethod) (h : Hook) (to_come : List Hook) (n : ℕ) (s : State W)
      → IsGate h
      → h ≢ friends_update
      → All (λ k. h ≢ k) to_come
      → Counted guard (h ∷ to_come) n s
      → Returns (install_optional E target h n s) (λ m s'. Counted guard to_come m s')
  unfolding install_optional
  install_optional-Counted guard target h to_come n s g other fresh c =
      Returns-bind _ _ (install E target (E.address_of h) (some h) false s) _
        (install-Outcome E laws target (E.address_of h) h false s)
        λ done t o. step guard h to_come n s done t g other fresh c o

  started :
      (guard : Bool) (s t : State W) (to_come : List Hook)
      → Outcome E laws (E.address_of friends_update) friends_update s guard t
      → Counted guard to_come (if guard then 1 else 0) t
  started true s t to_come o = record {
    own = λ e. o.trampoline;
    gate = λ m. absurd (omega (arith, m));
  }
  started false s t to_come o = record {
    own = λ e. absurd (ground (arith, e));
    gate = λ m. absurd (omega (arith, m));
  }

  abbrev pub Ready : Bool → State W → Type 0
  Ready ok s =
      ok ≡ true
      → (s.originals friends_update ≢ null) × ((h : Hook) × IsGate h × (s.originals h ≢ null))

  concluded :
      (guard : Bool) (n : ℕ) (s : State W) → Counted guard [] n s → Ready (guard && leb 2 n) s
  concluded true n s c ok =
      let (h, g, none_left, there) = c.gate (leb→le 2 n ok) in (c.own refl, (h, g, there))
  concluded false n s c ok = absurd (ground (arith, ok))

  install_guard-Ready : (s : State W) → Returns (install_guard E s) Ready
  unfolding install_guard
  install_guard-Ready s =
      Returns-bind _ Ready (install E _ (E.address_of friends_update) (some friends_update) true s)
        _ (install-Outcome E laws _ _ friends_update true s)
        λ guard t o.
          Returns-bind _ Ready (install_optional E _ connect_scene_go _ t) _
            (install_optional-Counted guard _ connect_scene_go
              (connection_control_connect ∷ game_connect_tier ∷ game_connect_squad ∷ []) _ t
              (ground arith) (ground arith) (ground arith) (started guard s t _ o))
            λ n t c.
              Returns-bind _ Ready (install_optional E _ connection_control_connect n t) _
                (install_optional-Counted guard _ connection_control_connect
                  (game_connect_tier ∷ game_connect_squad ∷ []) n t (ground arith) (ground arith)
                  (ground arith) c)
                λ n t c.
                  Returns-bind _ Ready (install_optional E _ game_connect_tier n t) _
                    (install_optional-Counted guard _ game_connect_tier (game_connect_squad ∷ []) n
                      t (ground arith) (ground arith) (ground arith) c)
                    λ n t c.
                      Returns-bind _ Ready (install_optional E _ game_connect_squad n t) _
                        (install_optional-Counted guard _ game_connect_squad [] n t (ground arith)
                          (ground arith) tt c)
                        λ n t c. concluded guard n t c

  -- Under the laws of shadowhook, in a build with the guard, `install_hooks` never faults, and
  -- where it returns true the original of FriendsController.Update and that of at least one of the
  -- four connection entries can be called.
  pub install_hooks-Ready : (s : State W) → E.selfhosted ≡ false → Returns (install_hooks E s) Ready
  unfolding install_hooks
  install_hooks-Ready s cloud = simp cloud (install_guard-Ready s)
