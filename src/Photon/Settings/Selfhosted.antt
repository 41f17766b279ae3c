-- ===== src/Photon/Settings/Selfhosted.antt =====
-- A selfhosted build sets the host type and the protocol.
use Prim.Native.String.{String}
use native.Mathlib.Nat.{one-le-pow}
use old_pixel_gun_3d_online.Base.{
  ℕ, ◌^◌, ◌<◌, ◌≡◌, refl, ap, ◌∙◌, Bool, true, false, ◌||◌, [], ◌∷◌, Ptr, is_null, arith,
  codes_differ,
}
use old_pixel_gun_3d_online.State.{Env, Export, State, str, string_new}
use old_pixel_gun_3d_online.State.Monad.{
  M, ◌>>◌, pure, branch, logi, Returns, Returns-bind, Returns-mono, Returns-both,
}
use old_pixel_gun_3d_online.Il2cpp.Fields.Values.{le_bytes}
use old_pixel_gun_3d_online.Photon.Settings.{
  write_field, write_app_id, write_endpoint, write_mode, apply_config_to_settings,
}
use old_pixel_gun_3d_online.Photon.Settings.Rules.{Fields, Same, Keeps}
use old_pixel_gun_3d_online.Photon.Settings.Kept.{
  Keeps-write_field, Keeps-write_app_id, Keeps-write_endpoint,
}
use old_pixel_gun_3d_online.Photon.Settings.Stored.{
  Stores, Present, Reads, Stored, Stored-Reads, Stored-log, Present-Same, Stored-Same,
  write_field-Stored, any_true,
}

abbrev pub host_type : String
host_type = "HostType"

abbrev pub protocol : String
protocol = "Protocol"

module _ {W : Type 0} (E : Env W) (settings : Ptr) (laws : Fields E.platform settings)
    (stores : Stores E.platform settings) (wide narrow : ℕ) where
  abbrev IsUp : State W → Type 0
  IsUp s = is_null (s.slots string_new) ≡ false

  -- Both fields are read as before.
  record BothSame (s t : State W) : Type 0 where
    up : IsUp t
    host : Same E settings host_type s t
    mode : Same E settings protocol s t

  both_same :
      {A : Type 0} (m : M W A)
      → Keeps E settings host_type m
      → Keeps E settings protocol m
      → (s : State W) → IsUp s
      → Returns (m s) (λ _ t. BothSame s t)
  both_same m host mode s up =
      Returns-mono _ _ (m s) (Returns-both _ _ (m s) (host.at s up) (mode.at s up)) λ a t h.
        record {
          up = ap (λ (slots : Export → Ptr). is_null (slots string_new)) h.0.slots ∙ up;
          host = h.0;
          mode = h.1;
        }

  -- Both fields hold what the build wants.
  record Ready (s : State W) : Type 0 where
    up : IsUp s
    host : Stored E settings host_type wide 2 s
    mode : Stored E settings protocol narrow 0 s

  Ready-Same : (s t : State W) → BothSame s t → Ready s → Ready t
  Ready-Same s t h r = record {
    up = h.up;
    host = Stored-Same E settings host_type wide 2 s t h.host r.host;
    mode = Stored-Same E settings protocol narrow 0 s t h.mode r.mode;
  }

  write_mode-Ready :
      (s : State W)
      → E.selfhosted ≡ true
      → IsUp s
      → Present E settings host_type wide s
      → Present E settings protocol narrow s
      → Returns (write_mode E settings s) (λ changed t. (changed ≡ true) × Ready t)
  unfolding write_mode
  write_mode-Ready s selfhosted up host mode = simp selfhosted (
      Returns-bind _ _ (write_field E settings host_type (le_bytes 4 2) s) _
        (Returns-both _ _ (write_field E settings host_type (le_bytes 4 2) s)
          (write_field-Stored E settings laws stores host_type wide 2 s host)
          ((Keeps-write_field laws protocol host_type (le_bytes 4 2)
              (codes_differ protocol host_type refl)).at
            s up))
        λ a t h.
          let up' : IsUp t =
            ap (λ (slots : Export → Ptr). is_null (slots string_new)) h.1.slots ∙ up in
          Returns-bind _ _ (write_field E settings protocol (le_bytes 4 0) t) _
            (Returns-both _ _ (write_field E settings protocol (le_bytes 4 0) t)
              (write_field-Stored E settings laws stores protocol narrow 0 t
                (Present-Same E settings protocol narrow s t h.1 mode))
              ((Keeps-write_field laws host_type protocol (le_bytes 4 0)
                  (codes_differ host_type protocol refl)).at
                t up'))
            λ b u k. (
              ground (arith, h.0.0),
              record {
                up = ap (λ (slots : Export → Ptr). is_null (slots string_new)) k.1.slots ∙ up';
                host = Stored-Same E settings host_type wide 2 t u k.1 h.0.1;
                mode = k.0.1;
              },
            ))

  -- In a selfhosted build, under the laws of an object's fields, with the exports bound and both fields
  -- in the settings, each at most four bytes wide and the host type's wide enough for 2:
  -- `apply_config_to_settings` returns true, and afterwards the host type is read as 2 and the protocol
  -- as 0, whatever the AppID and the address are.
  pub apply_config-selfhosted :
      (point : String) (s : State W)
      → E.selfhosted ≡ true
      → 2 < 256 ^ wide
      → is_null (s.slots string_new) ≡ false
      → Present E settings host_type wide s
      → Present E settings protocol narrow s
      → Returns (apply_config_to_settings E settings point s) (λ changed t.
        (changed ≡ true) × Reads E settings host_type 2 t × Reads E settings protocol 0 t)
  unfolding apply_config_to_settings
  apply_config-selfhosted point s selfhosted holds up host mode = rw host.object (
      Returns-bind _ _ (write_app_id E settings s) _
        (both_same (write_app_id E settings)
          (Keeps-write_app_id laws host_type (codes_differ host_type "AppID" refl))
          (Keeps-write_app_id laws protocol (codes_differ protocol "AppID" refl)) s up)
        λ app t h.
          Returns-bind _ _ (write_mode E settings t) _
            (write_mode-Ready t selfhosted h.up
              (Present-Same E settings host_type wide s t h.host host)
              (Present-Same E settings protocol narrow s t h.mode mode))
            λ changed u (good, ready).
              Returns-bind _ _ (write_endpoint E settings u) _
                (both_same (write_endpoint E settings)
                  (Keeps-write_endpoint laws host_type (codes_differ host_type "ServerAddress" refl)
                    (codes_differ host_type "ServerPort" refl))
                  (Keeps-write_endpoint laws protocol (codes_differ protocol "ServerAddress" refl)
                    (codes_differ protocol "ServerPort" refl))
                  u ready.up)
                λ endpoint v k. finished app changed endpoint v good (Ready-Same u v k ready))
    where
      finished :
          (app changed endpoint : Bool) (v : State W)
          → changed ≡ true
          → Ready v
          → Returns
              ((branch
                    (app || changed || endpoint)
                    (logi "settings[%s]: build configuration applied" (str point ∷ []))
                    (pure tt)
                  >> pure (app || changed || endpoint))
                v)
              (λ changed t.
                (changed ≡ true) × Reads E settings host_type 2 t × Reads E settings protocol 0 t)
      finished app changed endpoint v good ready = rw (any_true app changed endpoint good) (
        refl,
        Stored-Reads E settings host_type wide 2 _ holds (Stored-log E settings ready.host),
        Stored-Reads E settings protocol narrow 0 _ (one-le-pow narrow 256 (omega arith))
            (Stored-log E settings ready.mode),
      )
