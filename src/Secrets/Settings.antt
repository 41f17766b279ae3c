-- ===== src/Secrets/Settings.antt =====
-- The writes of the build's configuration run alike in both processes.
use Prim.Native.String.{String}
use old_pixel_gun_3d_online.Base.{◌≡◌, refl, ap, arith, not, ◌∷◌, [], Bytes, length, Ptr}
use old_pixel_gun_3d_online.State.{Env}
use old_pixel_gun_3d_online.Il2cpp.Fields.Values.{le_bytes}
use old_pixel_gun_3d_online.Cloud.{is_empty}
use old_pixel_gun_3d_online.Photon.Settings.{
  bits32, write_field, write_app_id, write_endpoint, write_mode, apply_config_to_settings,
}
use old_pixel_gun_3d_online.Secrets.{Secrets, Twins}
use old_pixel_gun_3d_online.Secrets.Rules.{Blind, Blind-if, Blind-acts, blind_rules}

is_empty-length : (xs ys : Bytes) → length ys ≡ length xs → is_empty ys ≡ is_empty xs
is_empty-length [] [] e = refl
is_empty-length [] (y ∷ ys) e = absurd (omega arith)
is_empty-length (x ∷ xs) [] e = absurd (omega arith)
is_empty-length (x ∷ xs) (y ∷ ys) e = refl

module _ {W : Type 0} (E F : Env W) (V : Secrets W) ⦃twins : Twins E F V⦄ where
  -- Both builds have an AppID, or none has.
  pub same_is_empty : is_empty F.app_id ≡ is_empty E.app_id
  same_is_empty = is_empty-length E.app_id F.app_id twins.same_app_length

  pub same_has_app_id : not (is_empty F.app_id) ≡ not (is_empty E.app_id)
  same_has_app_id = ap not same_is_empty

  same_has_address : not (is_empty F.server_address) ≡ not (is_empty E.server_address)
  same_has_address = rw twins.same_server_address refl

  same_port : le_bytes 4 (bits32 F.server_port) ≡ le_bytes 4 (bits32 E.server_port)
  same_port = rw twins.same_server_port refl

  same_new_address :
      (w u : W)
      → V.Alike w u
      → ((F.il2cpp_string_new F.server_address u).0 ≡ (E.il2cpp_string_new E.server_address w).0)
        × V.Alike
            (E.il2cpp_string_new E.server_address w).1
            (F.il2cpp_string_new F.server_address u).1
  same_new_address w u l = rw twins.same_server_address (twins.same_new l E.server_address)

  Blind-write_field :
      (object : Ptr) (name : String) (value value' : Bytes)
      → value' ≡ value
      → Blind V (write_field E object name value) (write_field F object name value')
  unfolding write_field
  Blind-write_field object name value value' e =
      rw e (search (blind_rules, twins.same_class_of, twins.same_field, twins.same_set) depth 40)

  pub Blind-apply_config :
      (settings : Ptr) (point : String)
      → Blind V
          (apply_config_to_settings E settings point)
          (apply_config_to_settings F settings point)
  unfolding apply_config_to_settings write_app_id write_endpoint write_mode
  Blind-apply_config settings point =
      search
        (
          blind_rules, Blind-if, Blind-acts, Blind-write_field, same_has_app_id, same_has_address,
          same_port, same_new_address, twins.same_new_app_id, twins.same_selfhosted,
        )
        depth 60
