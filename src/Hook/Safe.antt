-- ===== src/Hook/Safe.antt =====
-- When every patched entry that leads to a hook leads to one whose original is there.
use native.Mathlib.Decide.{ℕ_discrete}
use old_pixel_gun_3d_online.Base.{
  ◌≡◌, ◌≢◌, sym, ap, ◌∙◌, Bool, true, false, some, List, ◌∷◌, All, Ptr, null,
}
use old_pixel_gun_3d_online.State.{Env, State, Hook}
use old_pixel_gun_3d_online.State.Monad.{Returns, Returns-mono}
use old_pixel_gun_3d_online.Hook.{ManagedMethod, install}
use old_pixel_gun_3d_online.Hook.Laws.{Patches}
use old_pixel_gun_3d_online.Hook.Install.{Outcome, install-Outcome}

module _ {W : Type 0} (E : Env W) (laws : Patches E.platform) (hook_at : Ptr → Hook)
    (hook_at_address : (h : Hook) → hook_at (E.address_of h) ≡ h) where
  open laws use {patched}

  injective : (h k : Hook) → E.address_of h ≡ E.address_of k → h ≡ k
  injective h k e = sym (hook_at_address h) ∙ ap hook_at e ∙ hook_at_address k

  -- An entry that leads to a hook: its original is there, and it is none of those still to come.
  abbrev pub Safe : List Hook → State W → Type 0
  Safe to_come s =
      (a : Ptr) (h : Hook)
      → patched s.world a ≡ E.address_of h
      → (s.originals h ≢ null) × All (λ k. h ≢ k) to_come

  pub Safe-step :
      (h : Hook) (to_come : List Hook) (s : State W) (done : Bool) (s' : State W)
      → All (λ k. h ≢ k) to_come
      → Safe (h ∷ to_come) s
      → Outcome E laws (E.address_of h) h s done s'
      → Safe to_come s'
  Safe-step h to_come s true s' fresh safe o a k leads = elim (ℕ_discrete a o.address) [
    | yes here ↦
        let same : k ≡ h = injective k h (sym leads ∙ rw here o.runs) in
        rw same (o.trampoline, fresh)
    | no there ↦
        let (kept, (other, rest)) = safe a k (sym (o.elsewhere a there) ∙ leads) in
        (rw (o.others k other) kept, rest)
  ]
  Safe-step h to_come s false s' fresh safe o a k leads =
      let (kept, (other, rest)) = safe a k (sym (o.everywhere a) ∙ leads) in
      (rw (o.others k other) kept, rest)

  -- An install of the next hook keeps it so, whatever it returns.
  pub install-Safe :
      (target : ManagedMethod) (h : Hook) (to_come : List Hook) (required : Bool) (s : State W)
      → All (λ k. h ≢ k) to_come
      → Safe (h ∷ to_come) s
      → Returns (install E target (E.address_of h) (some h) required s) (λ _ s'. Safe to_come s')
  install-Safe target h to_come required s fresh safe =
      Returns-mono _ _ (install E target (E.address_of h) (some h) required s)
        (install-Outcome E laws target (E.address_of h) h required s)
        λ done t o. Safe-step h to_come s done t fresh safe o
