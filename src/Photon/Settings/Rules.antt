-- ===== src/Photon/Settings/Rules.antt =====
-- What a field of the settings object keeps, and one rule for each way to build code that keeps it.
use Prim.Native.String.{String}
use old_pixel_gun_3d_online.Base.{
  ℕ, ◌≡◌, ◌≢◌, inl, inr, refl, sym, ap, ◌∙◌, Bool, true, false, List, Bytes, Ptr, is_null,
  Bool-cases,
}
use old_pixel_gun_3d_online.State.{Env, Platform, Export, State, Arg, string_new}
use old_pixel_gun_3d_online.State.Monad.{
  M, ◌>>=◌, ◌>>◌, pure, gets, branch, through, logi, Returns, Returns-bind, Returns-mono,
}
use old_pixel_gun_3d_online.Il2cpp.Fields.{field_bytes}
use old_pixel_gun_3d_online.Photon.Settings.{}

-- What the runtime promises of an object: its class and the fields of a class stay, fields of
-- different names are different, a write changes its field alone, and a new string changes none.
pub record Fields {W : Type 0} (P : Platform W) (object : Ptr) : Type 0 where
  pub set_class :
      (field : Ptr) (value : Bytes) (w : W)
      → P.il2cpp_object_get_class object (P.il2cpp_field_set_value object field value w)
        ≡ P.il2cpp_object_get_class object w
  pub set_field :
      (field : Ptr) (value : Bytes) (klass : Ptr) (name : String) (w : W)
      → P.il2cpp_class_get_field_from_name klass name
          (P.il2cpp_field_set_value object field value w)
        ≡ P.il2cpp_class_get_field_from_name klass name w
  pub set_other :
      (field other : Ptr) (value : Bytes) (w : W)
      → other ≢ field
      → P.il2cpp_field_get_value object other (P.il2cpp_field_set_value object field value w)
        ≡ P.il2cpp_field_get_value object other w
  pub name_at : Ptr → String
  pub named :
      (klass : Ptr) (name : String) (w : W)
      → is_null (P.il2cpp_class_get_field_from_name klass name w) ≡ false
      → name_at (P.il2cpp_class_get_field_from_name klass name w) ≡ name
  pub new_class :
      (text : Bytes) (w : W)
      → P.il2cpp_object_get_class object (P.il2cpp_string_new text w).1
        ≡ P.il2cpp_object_get_class object w
  pub new_field :
      (text : Bytes) (klass : Ptr) (name : String) (w : W)
      → P.il2cpp_class_get_field_from_name klass name (P.il2cpp_string_new text w).1
        ≡ P.il2cpp_class_get_field_from_name klass name w
  pub new_value :
      (text : Bytes) (field : Ptr) (w : W)
      → P.il2cpp_field_get_value object field (P.il2cpp_string_new text w).1
        ≡ P.il2cpp_field_get_value object field w

module _ {W : Type 0} (E : Env W) (settings : Ptr) (name : String) where
  abbrev pub class_in : W → Ptr
  class_in w = E.il2cpp_object_get_class settings w

  abbrev pub field_in : W → Ptr
  field_in w = E.il2cpp_class_get_field_from_name (class_in w) name w

  -- The field of this name is read alike in both states.
  pub record Same (s t : State W) : Type 0 where
    pub slots : t.slots ≡ s.slots
    pub klass : class_in t.world ≡ class_in s.world
    pub field : field_in t.world ≡ field_in s.world
    pub value :
        is_null (field_in s.world) ≡ false
        → E.il2cpp_field_get_value settings (field_in s.world) t.world
          ≡ E.il2cpp_field_get_value settings (field_in s.world) s.world

  pub Same-refl : (s : State W) → Same s s
  Same-refl s = record { slots = refl; klass = refl; field = refl; value = λ there. refl }

  pub Same-trans : (s t u : State W) → Same s t → Same t u → Same s u
  Same-trans s t u a b = record {
    slots = b.slots ∙ a.slots;
    klass = b.klass ∙ a.klass;
    field = b.field ∙ a.field;
    value = λ there.
        ap (λ (f : Ptr). E.il2cpp_field_get_value settings f u.world) (sym a.field)
        ∙ b.value (ap is_null a.field ∙ there)
        ∙ ap (λ (f : Ptr). E.il2cpp_field_get_value settings f t.world) a.field
        ∙ a.value there;
  }

  pub Same-field_bytes :
      (size : ℕ) (s t : State W)
      → Same s t
      → field_bytes E size settings name t.slots t.world
        ≡ field_bytes E size settings name s.slots s.world
  unfolding field_bytes
  Same-field_bytes size s t h = elim (Bool-cases (is_null (field_in s.world))) [
    | inl missing ↦ rw (h.slots, h.field, h.klass, missing) refl
    | inr there ↦ rw (h.slots, h.field, h.klass, h.value there) refl
  ]

  pub record Keeps {A : Type 0} (m : M W A) : Type 0 where
    pub at : (s : State W) → is_null (s.slots string_new) ≡ false → Returns (m s) (λ _ t. Same s t)

module _ {W A : Type 0} {E : Env W} {settings : Ptr} {name : String} where
  pub Keeps-pure : (a : A) → Keeps E settings name (pure a)
  Keeps-pure a = record { at = λ s there. Same-refl E settings name s }

  pub Keeps-gets : (f : State W → A) → Keeps E settings name (gets f)
  Keeps-gets f = record { at = λ s there. Same-refl E settings name s }

  pub Keeps-branch :
      (b : Bool) (m k : M W A)
      → (b ≡ true → Keeps E settings name m)
      → (b ≡ false → Keeps E settings name k)
      → Keeps E settings name (branch b m k)
  Keeps-branch true m k hm hk = record { at = (hm refl).at }
  Keeps-branch false m k hm hk = record { at = (hk refl).at }

module _ {W A B : Type 0} {E : Env W} {settings : Ptr} {name : String} where
  pub Keeps-bind :
      (m : M W A) (k : A → M W B)
      → Keeps E settings name m
      → ((a : A) → Keeps E settings name (k a))
      → Keeps E settings name (m >>= k)
  Keeps-bind m k hm hk = record {
    at = λ s there. Returns-bind _ _ (m s) k (hm.at s there) λ a t h.
        Returns-mono _ _ (k a t)
          ((hk a).at t (ap (λ (slots : Export → Ptr). is_null (slots string_new)) h.slots ∙ there))
          λ b u g. Same-trans E settings name s t u h g;
  }

  pub Keeps-then :
      (m : M W A) (k : M W B)
      → Keeps E settings name m
      → Keeps E settings name k
      → Keeps E settings name (m >> k)
  Keeps-then m k hm hk = Keeps-bind m (λ _. k) hm (λ _. hk)

module _ {W : Type 0} {E : Env W} {settings : Ptr} {name : String} where
  pub Keeps-logi : (text : String) (args : List Arg) → Keeps E settings name (logi text args)
  Keeps-logi text args = record {
    at = λ s there. record { slots = refl; klass = refl; field = refl; value = λ there. refl };
  }

  pub Keeps-through : Keeps E settings name (through string_new)
  Keeps-through = record { at = λ s there. rw there (Same-refl E settings name s) }

pub ruleset keeps_rules =
    (Keeps-pure, Keeps-gets, Keeps-branch, Keeps-bind, Keeps-then, Keeps-logi, Keeps-through)
