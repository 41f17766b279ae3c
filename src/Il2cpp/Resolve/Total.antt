-- ===== src/Il2cpp/Resolve/Total.antt =====
-- `resolve` returns when each lookup of a symbol does.
use Prim.Native.String.{String}
use old_pixel_gun_3d_online.Base.{
  ℕ, ◌≡◌, ◌≢◌, inl, inr, Bool, true, ◌&&◌, none, List, [], ◌∷◌, codes, All, Bool-cases,
  Option-cases,
}
use old_pixel_gun_3d_online.State.{State, Export, thread_detach}
use old_pixel_gun_3d_online.State.Monad.{
  bound, Returns, Returns-bind, Returns-mono, Returns-Ensures,
}
use old_pixel_gun_3d_online.ElfSym.{Image, find_symbol}
use old_pixel_gun_3d_online.Il2cpp.Resolve.{
  so, required, find_export, bind, bind_each, resolve, resolve_outcome, Bound, Kept,
}

module _ {W : Type 0} (image : W → Image) (fuel : ℕ) where
  -- Each symbol of libil2cpp.so that is looked up is found or found to be missing.
  abbrev pub SymbolsReturn : Type 0
  SymbolsReturn =
      (w : W) (name : String) → find_symbol (image w) fuel (codes so) (codes name) ≢ none

module _ {W : Type 0} (image : W → Image) (fuel : ℕ) (symbols : SymbolsReturn image fuel) where
  bind-Returns :
      (fn : Export) (name : String) (s : State W)
      → Returns (bind image fuel fn name s) (λ _ _. Unit)
  unfolding bind
  bind-Returns fn name s = elim (Bool-cases (bound fn s)) [
    | inl there ↦ rw there tt
    | inr free ↦ elim (Option-cases (find_symbol (image s.world) fuel (codes so) (codes name))) [
      | inl fault ↦ absurd (symbols s.world name fault)
      | inr (p, e) ↦ rw (free, e, find_export) tt
    ]
  ]

  bind_each-Returns :
      (exports : List (Export × String)) (ok : Bool) (s : State W)
      → Returns (bind_each image fuel ok exports s) (λ _ _. Unit)
  unfolding bind_each
  bind_each-Returns [] ok s = tt
  bind_each-Returns ((fn, name) ∷ rest) ok s =
      Returns-bind _ _ (bind image fuel fn name s) _ (bind-Returns fn name s)
        λ done t u. bind_each-Returns rest (ok && done) t

  resolve-total : (s : State W) → Returns (resolve image fuel s) (λ _ _. Unit)
  unfolding resolve
  resolve-total s =
      Returns-bind _ _ (bind_each image fuel true required s) _ (bind_each-Returns required true s)
        λ ok t u.
          Returns-bind _ _ (bind image fuel thread_detach "il2cpp_thread_detach" t) _
            (bind-Returns thread_detach "il2cpp_thread_detach" t) λ detach s' v. tt

  pub resolve-Returns :
      (s : State W)
      → Returns
          (resolve image fuel s)
          (λ ok t. (ok ≡ true → All (Bound image fuel t) required) × Kept image fuel s t)
  resolve-Returns s =
      Returns-mono _ _ (resolve image fuel s)
        (Returns-Ensures _ _ (resolve image fuel s) (resolve-total s)
          (resolve_outcome image fuel s))
        λ ok t (u, (sound, complete, kept)). (sound, kept)
