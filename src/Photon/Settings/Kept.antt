-- ===== src/Photon/Settings/Kept.antt =====
-- Which fields of the settings object the build's configuration leaves as they are.
use Prim.Native.String.{String}
use old_pixel_gun_3d_online.Base.{
  ℕ, ◌≡◌, ◌≢◌, ◌⊎◌, inl, inr, refl, sym, ap, ◌∙◌, Bool, true, false, not, ◌&&◌, Bytes, Ptr, is_null,
  Bool-cases,
}
use old_pixel_gun_3d_online.State.{
  Env, State, string_new, object_get_class, class_get_field_from_name, field_set_value,
}
use old_pixel_gun_3d_online.State.Monad.{acts, bound, Returns, Returns-mono}
use old_pixel_gun_3d_online.Il2cpp.Fields.{field_bytes}
use old_pixel_gun_3d_online.Photon.Settings.{
  write_field, write_app_id, write_endpoint, write_mode, apply_config_to_settings,
}
use old_pixel_gun_3d_online.Photon.Settings.Rules.{
  Fields, Same, Same-field_bytes, Keeps, Same-refl, keeps_rules,
}

-- The fields that the configuration writes, in either build.
abbrev pub IsConfigured : Bool → String → Type 0
IsConfigured selfhosted name =
    (name ≡ "AppID")
    ⊎ (name ≡ "ServerAddress")
    ⊎ (name ≡ "ServerPort")
    ⊎ ((selfhosted ≡ true) × ((name ≡ "HostType") ⊎ (name ≡ "Protocol")))

module _ {W : Type 0} {E : Env W} {settings : Ptr} (laws : Fields E.platform settings)
    (name : String) where
  pub Keeps-string_new : (text : Bytes) → Keeps E settings name (acts (E.il2cpp_string_new text))
  Keeps-string_new text = record {
    at = λ s there. record {
      slots = refl;
      klass = laws.new_class text s.world;
      field =
          laws.new_field text _ name s.world
          ∙ ap (λ (k : Ptr). E.il2cpp_class_get_field_from_name k name s.world)
              (laws.new_class text s.world);
      value = λ there. laws.new_value text _ s.world;
    };
  }

  -- A write to a field of another name.
  pub Keeps-write_field :
      (other : String) (value : Bytes)
      → name ≢ other
      → Keeps E settings name (write_field E settings other value)
  unfolding write_field
  Keeps-write_field other value ne = record {
    at = λ s bound_new. elim (Bool-cases (usable s)) [
      | inr skipped ↦ rw skipped (Same-refl E settings name s)
      | inl ready ↦ elim (Bool-cases (is_null (E.il2cpp_object_get_class settings s.world))) [
        | inl classless ↦ rw (ready, classless) (Same-refl E settings name s)
        | inr klass ↦ elim (Bool-cases (is_null (field_at other s.world))) [
          | inl missing ↦ rw (ready, klass, missing) (Same-refl E settings name s)
          | inr there ↦ rw (ready, klass, there) (written s there)
        ]
      ]
    ];
  }
    where
      usable : State W → Bool
      usable s =
          not (is_null settings)
          && bound object_get_class s
          && bound class_get_field_from_name s
          && bound field_set_value s

      field_at : String → W → Ptr
      field_at n w = E.il2cpp_class_get_field_from_name (E.il2cpp_object_get_class settings w) n w

      after : State W → State W
      after s = record s {
        world = E.il2cpp_field_set_value settings (field_at other s.world) value s.world;
      }

      written :
          (s : State W)
          → is_null (field_at other s.world) ≡ false
          → Same E settings name s (after s)
      written s there = record {
        slots = refl;
        klass = laws.set_class _ value s.world;
        field =
            laws.set_field _ value _ name s.world
            ∙ ap (λ (k : Ptr). E.il2cpp_class_get_field_from_name k name s.world)
                (laws.set_class _ value s.world);
        value = λ mine. laws.set_other _ _ value s.world λ same. ne (
            sym (laws.named _ name s.world mine)
            ∙ ap laws.name_at same
            ∙ laws.named _ other s.world there);
      }

  pub Keeps-write_app_id : name ≢ "AppID" → Keeps E settings name (write_app_id E settings)
  unfolding write_app_id
  Keeps-write_app_id app = search (keeps_rules, Keeps-string_new, Keeps-write_field, app) depth 40

  pub Keeps-write_endpoint :
      name ≢ "ServerAddress"
      → name ≢ "ServerPort"
      → Keeps E settings name (write_endpoint E settings)
  unfolding write_endpoint
  Keeps-write_endpoint address port =
      search (keeps_rules, Keeps-string_new, Keeps-write_field, address, port) depth 40

  Keeps-apply_config :
      (point : String)
      → ¬ IsConfigured E.selfhosted name
      → Keeps E settings name (apply_config_to_settings E settings point)
  unfolding apply_config_to_settings write_app_id write_endpoint write_mode
  Keeps-apply_config point other =
      search (keeps_rules, Keeps-string_new, Keeps-write_field, app, address, port, host, protocol)
        depth 60
    where
      app : name ≢ "AppID"
      app e = other (inl e)

      address : name ≢ "ServerAddress"
      address e = other (inr (inl e))

      port : name ≢ "ServerPort"
      port e = other (inr (inr (inl e)))

      host : E.selfhosted ≡ true → name ≢ "HostType"
      host h e = other (inr (inr (inr (h, inl e))))

      protocol : E.selfhosted ≡ true → name ≢ "Protocol"
      protocol h e = other (inr (inr (inr (h, inr e))))

module _ {W : Type 0} (E : Env W) (settings : Ptr) (laws : Fields E.platform settings) where
  -- Under the laws of an object's fields, and with `il2cpp_string_new` bound: `apply_config_to_settings`
  -- returns, and what is read of each field of the settings is as before, but for AppID, ServerAddress
  -- and ServerPort, and in a selfhosted build HostType and Protocol. So a cloud build does not touch
  -- the host type and the region that `force_cloud` verifies.
  pub apply_config-keeps :
      (name point : String) (size : ℕ) (s : State W)
      → ¬ IsConfigured E.selfhosted name
      → is_null (s.slots string_new) ≡ false
      → Returns (apply_config_to_settings E settings point s) (λ changed t.
        field_bytes E size settings name t.slots t.world
        ≡ field_bytes E size settings name s.slots s.world)
  apply_config-keeps name point size s other there =
      Returns-mono _ _ (apply_config_to_settings E settings point s)
        ((Keeps-apply_config laws name point other).at s there)
        λ changed t h. Same-field_bytes E settings name size s t h
