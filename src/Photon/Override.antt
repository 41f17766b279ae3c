-- ===== src/Photon/Override.antt =====
-- `hook_select_app_id`: which AppID the game gets.
use old_pixel_gun_3d_online.Base.{
  ℕ, ◌+◌, ◌%◌, ◌^◌, ◌≡◌, refl, subst, inl, inr, true, false, none, some, [], ◌∷◌, Ptr, null,
  is_null, Bool-cases, if◌then◌else◌, Option, Option-cases,
}
use old_pixel_gun_3d_online.State.{Env, State, Hook, ptr, string_new, select_app_id}
use old_pixel_gun_3d_online.Cloud.{is_empty}
use old_pixel_gun_3d_online.Photon.{hook_select_app_id, select_original}

module _ {W : Type 0} (E : Env W) (settings method : Ptr) (s : State W) where
  -- Result and world of a run, without the log and the counters.
  abbrev pub outcome : {A : Type 0} → Option (A × State W) → Option (A × W)
  outcome none = none
  outcome (some (a, t)) = some (a, t.world)

  abbrev pub counted : ℕ
  counted = (s.photon.select_calls + 1) % 2 ^ 32

  -- The configured AppID as a managed string, and the world after it was made.
  abbrev pub made : Ptr × W
  made = E.il2cpp_string_new E.app_id s.world

  -- The string made from the configured AppID is the result, and no machine code has run.
  abbrev pub Overridden : Option (Ptr × State W) → Type 0
  Overridden r =
      (s' : State W) × (r ≡ some (made.0, s'))
      × (s'.world ≡ made.1)
      × (s'.photon.select_calls ≡ counted)
      × (s'.originals ≡ s.originals)
      × (s'.cloud ≡ s.cloud)

  -- The game's own code decides, called once, with the same arguments, in a world `w`.
  abbrev pub PassedThrough : W → Option (Ptr × State W) → Type 0
  PassedThrough w r =
      (s1 : State W) × (s1.world ≡ w)
      × (s1.originals ≡ s.originals)
      × (outcome r ≡ (
          if is_null (s.originals select_app_id)
          then some (null, w)
          else outcome
              (E.invoke_ptr (s.originals select_app_id) (ptr settings ∷ ptr method ∷ []) s1)))

  abbrev game_result : (Hook → Ptr) → State W → Option (Ptr × W)
  game_result originals s1 =
      if is_null (originals select_app_id)
      then some (null, s1.world)
      else outcome (E.invoke_ptr (originals select_app_id) (ptr settings ∷ ptr method ∷ []) s1)

  original_runs :
      (s1 : State W) → outcome (select_original E settings method s1) ≡ game_result s1.originals s1
  unfolding select_original
  original_runs s1 = elim (Bool-cases (is_null (s1.originals select_app_id))) [
    | inl nothing ↦ rw nothing refl
    | inr there ↦
        elim (Option-cases
          (E.invoke_ptr (s1.originals select_app_id) (ptr settings ∷ ptr method ∷ []) s1)) [
            | inl fault ↦ simp (there, fault)
            | inr ((a, t), ran) ↦ simp (there, ran)
          ]
  ]

  original_decides :
      (s1 : State W)
      → s1.originals ≡ s.originals
      → outcome (select_original E settings method s1) ≡ game_result s.originals s1
  original_decides s1 e =
      subst (λ (f : Hook → Ptr). outcome (select_original E settings method s1) ≡ game_result f s1)
        e (original_runs s1)

  -- With an AppID in the build, an export to make strings and a string that could be made, the game
  -- gets that string and its own choice is never run. Without an AppID in the build, or where the
  -- string could not be made, the result and the world are those of the game's own code (null where
  -- there is none).
  pub hook_select_app_id_cases :
      (is_empty E.app_id ≡ false
        → is_null (s.slots string_new) ≡ false
        → is_null made.0 ≡ false
        → Overridden (hook_select_app_id E settings method s))
      × (is_empty E.app_id ≡ true → PassedThrough s.world (hook_select_app_id E settings method s))
      × (is_empty E.app_id ≡ false
          → is_null (s.slots string_new) ≡ false
          → is_null made.0 ≡ true
          → PassedThrough made.1 (hook_select_app_id E settings method s))
  unfolding hook_select_app_id
  hook_select_app_id_cases = (
    λ set bound good. simp set (rw (bound, good) (_, refl, refl, refl, refl, refl)),
    λ unset. simp unset (_, refl, refl, original_decides _ refl),
    λ set bound failed. simp set (rw (bound, failed) (_, refl, refl, original_decides _ refl)),
  )
