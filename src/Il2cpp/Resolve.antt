-- ===== src/Il2cpp/Resolve.antt =====
-- `bind` and `resolve` of il2cpp.cpp: the export pointers of il2cpp.h are filled from the symbol
-- table of libil2cpp.so.
pub mod Total
use Prim.Native.String.{String}
use mathlib.Core.Logic.{if_neg, if_pos}
use old_pixel_gun_3d_online.Base.{
  ℕ, ◌≡◌, ◌⊎◌, inl, inr, refl, ap, ◌∙◌, Bool, true, false, not, ◌&&◌, none, some, List, [], ◌∷◌,
  codes, All, Ptr, is_null, arith, Bool-cases, Option-cases,
}
use old_pixel_gun_3d_online.State.{
  State, Export, Export-discrete, string_new, string_length, string_chars, domain_get,
  domain_get_assemblies, assembly_get_image, image_get_name, class_from_name,
  class_get_method_from_name, class_get_field_from_name, object_get_class, field_get_value,
  field_set_value, field_static_get_value, field_static_set_value, thread_attach, thread_detach,
}
use old_pixel_gun_3d_online.State.Monad.{
  M, ◌>>=◌, ◌>>◌, pure, gets, branch, bound, set_slot, Ensures, Ensures-bind, Ensures-mono,
}
use old_pixel_gun_3d_online.ElfSym.{Image, find_symbol}

-- `kSo`
abbrev pub so : String
so = "libil2cpp.so"

-- The calls with `ok &=`, in their order.
abbrev pub required : List (Export × String)
required =
    (string_new, "il2cpp_string_new")
    ∷ (string_length, "il2cpp_string_length")
    ∷ (string_chars, "il2cpp_string_chars")
    ∷ (domain_get, "il2cpp_domain_get")
    ∷ (domain_get_assemblies, "il2cpp_domain_get_assemblies")
    ∷ (assembly_get_image, "il2cpp_assembly_get_image")
    ∷ (image_get_name, "il2cpp_image_get_name")
    ∷ (class_from_name, "il2cpp_class_from_name")
    ∷ (class_get_method_from_name, "il2cpp_class_get_method_from_name")
    ∷ (class_get_field_from_name, "il2cpp_class_get_field_from_name")
    ∷ (object_get_class, "il2cpp_object_get_class")
    ∷ (field_get_value, "il2cpp_field_get_value")
    ∷ (field_set_value, "il2cpp_field_set_value")
    ∷ (field_static_get_value, "il2cpp_field_static_get_value")
    ∷ (field_static_set_value, "il2cpp_field_static_set_value")
    ∷ (thread_attach, "il2cpp_thread_attach")
    ∷ []

-- `image` is what the loader shows in a state of the process, `fuel` the bound of ElfSym.lookup.
module _ {W : Type 0} (image : W → Image) (fuel : ℕ) where
  find_export : String → M W Ptr
  find_export name s = elim (find_symbol (image s.world) fuel (codes so) (codes name)) [
    | none ↦ none
    | some p ↦ some (p, s)
  ]

  set_export : Export → Ptr → M W (Unit {0})
  set_export e p s = some (tt, record s { slots = set_slot e p s.slots })

  unfoldable pub bind : Export → String → M W Bool
  unfolding find_export set_export
  bind fn name = do
    there ← gets (bound fn)
    branch there (pure true) (do found ← find_export name; set_export fn found; gets (bound fn))

  pub bind_each : Bool → List (Export × String) → M W Bool
  bind_each ok [] = pure ok
  bind_each ok ((fn, name) ∷ rest) = do done ← bind fn name; bind_each (ok && done) rest

  unfoldable pub resolve : M W Bool
  unfolding bind_each
  resolve = do ok ← bind_each true required; bind thread_detach "il2cpp_thread_detach"; pure ok

  -- A pointer that is set is never changed, and nothing else of the state changes.
  pub record Kept (s s' : State W) : Type 0 where
    pub set : (e : Export) → bound e s ≡ true → s'.slots e ≡ s.slots e
    pub rest : s' ≡ record s { slots = s'.slots }

  Kept-trans : (s t u : State W) → Kept s t → Kept t u → Kept s u
  Kept-trans s t u a b = record {
    set = λ e h. b.set e (ap (λ (p : Ptr). not (is_null p)) (a.set e h) ∙ h) ∙ a.set e h;
    rest = b.rest ∙ ap (λ (x : State W). record x { slots = u.slots }) a.rest;
  }

  -- A pointer that is set is not the one that is being filled.
  Kept-set_slot :
      (fn : Export) (p : Ptr) (s : State W)
      → bound fn s ≡ false
      → Kept s (record s { slots = set_slot fn p s.slots })
  Kept-set_slot fn p s free = record {
    set = λ e h.
        if_neg (Export-discrete e fn) (λ same. absurd (ground (arith, h, free, same))) p
          (s.slots e);
    rest = refl;
  }

  -- A pointer that is set, or whose symbol is in the table.
  abbrev pub Available : State W → Export × String → Type 0
  Available s (fn, name) =
      (bound fn s ≡ true)
      ⊎ ((p : Ptr) × (find_symbol (image s.world) fuel (codes so) (codes name) ≡ some p)
          × (is_null p ≡ false))

  abbrev pub Bound : State W → Export × String → Type 0
  Bound s (fn, name) = bound fn s ≡ true

  Available-Kept : (s t : State W) (e : Export × String) → Kept s t → Available s e → Available t e
  Available-Kept s t (fn, name) k (inl there) =
      inl (ap (λ (p : Ptr). not (is_null p)) (k.set fn there) ∙ there)
  Available-Kept s t (fn, name) k (inr (p, found, ne)) = inr (
    p,
    ap (λ (x : State W). find_symbol (image x.world) fuel (codes so) (codes name)) k.rest ∙ found,
    ne,
  )

  All-Kept :
      (exports : List (Export × String)) (s t : State W)
      → Kept s t
      → All (Available s) exports
      → All (Available t) exports
  All-Kept [] s t k a = tt
  All-Kept (e ∷ exports) s t k (a, as') = (Available-Kept s t e k a, All-Kept exports s t k as')

  All-Bound-Kept :
      (exports : List (Export × String)) (s t : State W)
      → Kept s t
      → All (Bound s) exports
      → All (Bound t) exports
  All-Bound-Kept [] s t k a = tt
  All-Bound-Kept ((fn, name) ∷ exports) s t k (a, as') =
      (ap (λ (p : Ptr). not (is_null p)) (k.set fn a) ∙ a, All-Bound-Kept exports s t k as')

  placed :
      (fn : Export) (p x : Ptr) (slots : Export → Ptr)
      → some p ≡ some x
      → is_null x ≡ false
      → not (is_null (set_slot fn p slots fn)) ≡ true
  placed fn p x slots same ne =
      rw (if_pos (Export-discrete fn fn) refl p (slots fn)) (ground (arith, same, ne))

  bind_outcome :
      (fn : Export) (name : String) (s : State W)
      → Ensures
          (bind fn name s)
          (λ done s'. (bound fn s' ≡ done) × Kept s s' × (Available s (fn, name) → done ≡ true))
  unfolding bind find_export set_export
  bind_outcome fn name s = elim (Bool-cases (bound fn s)) [
    | inl there ↦ rw there (there, record { set = λ e h. refl; rest = refl }, λ a. refl)
    | inr free ↦ elim (Option-cases (find_symbol (image s.world) fuel (codes so) (codes name))) [
      | inl fault ↦ rw (free, fault, find_export) tt
      | inr (p, e) ↦
          rw (free, e, find_export)
            (
              refl,
              Kept-set_slot fn p s free,
              λ a. elim a [
                | inl bad ↦ absurd (ground (arith, bad))
                | inr (x, same, ne) ↦ placed fn p x s.slots same ne
              ],
            )
    ]
  ]

  bind_each_outcome :
      (exports : List (Export × String)) (ok : Bool) (s : State W)
      → Ensures (bind_each ok exports s) (λ r s'.
        (r ≡ true → (ok ≡ true) × All (Bound s') exports)
        × Kept s s'
        × (ok ≡ true → All (Available s) exports → r ≡ true))
  unfolding bind_each
  bind_each_outcome [] ok s = (λ e. (e, tt), record { set = λ e h. refl; rest = refl }, λ e a. e)
  bind_each_outcome ((fn, name) ∷ rest) ok s =
      Ensures-bind _ _ (bind fn name s) _ (bind_outcome fn name s) λ done t (now, k, complete).
        Ensures-mono _ _ (bind_each (ok && done) rest t) (bind_each_outcome rest (ok && done) t)
          λ r s' (sound, k', complete'). (
            λ good.
                let (both, all) = sound good in
                let there : bound fn t ≡ true = ground (arith, now, both) in
                (
                  ground (arith, both),
                  (ap (λ (p : Ptr). not (is_null p)) (k'.set fn there) ∙ there, all),
                ),
            Kept-trans s t s' k k',
            λ good available.
                complete' (ground (arith, good, complete available.0))
                  (All-Kept rest s t k available.1),
          )

  -- For every run of `resolve` without a fault: where it returns true, all sixteen required
  -- exports are set; it returns true if each of them was set already or is in the symbol table;
  -- and it changes no pointer that is set, and nothing of the state but the pointers.
  pub resolve_outcome :
      (s : State W)
      → Ensures (resolve s) (λ ok s'.
        (ok ≡ true → All (Bound s') required)
        × (All (Available s) required → ok ≡ true)
        × Kept s s')
  unfolding resolve
  resolve_outcome s =
      Ensures-bind _ _ (bind_each true required s) _ (bind_each_outcome required true s)
        λ ok t (sound, k, complete).
          Ensures-bind _ _ (bind thread_detach "il2cpp_thread_detach" t) _
            (bind_outcome thread_detach "il2cpp_thread_detach" t)
            λ detach s' (now, k', any). (
              λ good. All-Bound-Kept required t s' k' (sound good).1,
              λ available. complete refl available,
              Kept-trans s t s' k k',
            )
