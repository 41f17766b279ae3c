-- ===== src/Photon/Install/Each.antt =====
-- The calls of `optional` one after the other: what each install keeps, all of them keep.
use old_pixel_gun_3d_online.Base.{ℕ, false, some, List, [], ◌∷◌, ◌++◌}
use old_pixel_gun_3d_online.State.{Env, State, Hook}
use old_pixel_gun_3d_online.State.Monad.{Returns, Returns-bind}
use old_pixel_gun_3d_online.Hook.{ManagedMethod, install}
use old_pixel_gun_3d_online.Photon.Install.{optional, optional_each}

abbrev pub hooks_of : List (ManagedMethod × Hook) → List Hook
hooks_of [] = []
hooks_of ((target, h) ∷ targets) = h ∷ hooks_of targets

-- `I to_come s`: what holds in front of the installs of the hooks `to_come`.
module _ {W : Type 0} (E : Env W) (I : List Hook → State W → Type 0)
    (step : (target : ManagedMethod) (h : Hook) (to_come : List Hook) (s : State W)
      → I (h ∷ to_come) s
      → Returns (install E target (E.address_of h) (some h) false s) (λ _ t. I to_come t)) where
  optional-keeps :
      (target : ManagedMethod) (h : Hook) (to_come : List Hook) (n : ℕ) (s : State W)
      → I (h ∷ to_come) s
      → Returns (optional E target h n s) (λ _ t. I to_come t)
  unfolding optional
  optional-keeps target h to_come n s i =
      Returns-bind _ _ (install E target (E.address_of h) (some h) false s) _
        (step target h to_come s i) λ done t j. j

  pub optional_each-keeps :
      (targets : List (ManagedMethod × Hook)) (later : List Hook) (n : ℕ) (s : State W)
      → I (hooks_of targets ++ later) s
      → Returns (optional_each E targets n s) (λ _ t. I later t)
  unfolding optional_each
  optional_each-keeps [] later n s i = i
  optional_each-keeps ((target, h) ∷ targets) later n s i =
      Returns-bind _ _ (optional E target h n s) _
        (optional-keeps target h (hooks_of targets ++ later) n s i)
        λ m t j. optional_each-keeps targets later m t j
