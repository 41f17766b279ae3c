-- ===== src/Photon.antt =====
-- photon_hooks.cpp: the fingerprints of secrets in the log, and the override of the AppID. A summary
-- is kept as the values that its format spells. The rest of the file is in the modules below.
pub mod Names
pub mod Override
pub mod Probes
pub mod Settings
pub mod Hooks
pub mod Observers
pub mod Rules
pub mod Wrappers
pub mod Statics
pub mod Install
use Prim.Native.String.{String}
use old_pixel_gun_3d_online.Base.{
  ℕ, ◌+◌, ◌%◌, ◌^◌, Bool, true, false, not, none, some, List, [], ◌∷◌, ◌++◌, ◌==◌, Bytes, length,
  Ptr, null, is_null, ℤ, pos, int_eq, minus_one, if◌then◌else◌,
}
use old_pixel_gun_3d_online.State.{
  Env, State, Photon, Arg, str, bytes, int, nat, ptr, num, string_new, string_length, select_app_id,
  get_game_version, debug_return,
}
use old_pixel_gun_3d_online.State.Monad.{
  M, ◌>>=◌, ◌>>◌, pure, gets, acts, modify_photon, branch, bound, through, logi, logw, loge,
}
use old_pixel_gun_3d_online.Text.Fnv.{fnv1a}
use old_pixel_gun_3d_online.Il2cpp.Strings.{to_utf8}
use old_pixel_gun_3d_online.Cloud.{is_empty, call_original}

module _ {W : Type 0} (E : Env W) where
  open E use {platform, invoke_void, invoke_ptr}

  unfoldable pub secret_summary : Ptr → State W → List Arg
  secret_summary value s =
      let text = to_utf8 E value 256 s in
      let chars =
        if bound string_length s then platform.il2cpp_string_length value s.world else minus_one in
      if is_null value
      then str "<null>" ∷ []
      else int chars ∷ nat (length text) ∷ nat (fnv1a text) ∷ []

  unfoldable pub configured_secret_summary : List Arg
  configured_secret_summary =
      nat (length E.app_id) ∷ nat (length E.app_id) ∷ nat (fnv1a E.app_id) ∷ []

  -- `g_select_app_id != nullptr ? g_select_app_id(settings, method) : nullptr`, and the rest.
  unfoldable pub select_original : Ptr → Ptr → M W Ptr
  select_original settings method = do
    there ← gets (λ s. not (is_null (s.originals select_app_id)))
    original ←
        branch there (call_original E invoke_ptr select_app_id (ptr settings ∷ ptr method ∷ []))
          (pure null)
    summary ← gets (secret_summary original)
    logi "appid: game result {%s}" summary
    pure original

  unfoldable pub hook_select_app_id : Ptr → Ptr → M W Ptr
  hook_select_app_id settings method = do
    modify_photon (λ p. record p { select_calls = (p.select_calls + 1) % 2 ^ 32 })
    call ← gets (λ s. s.photon.select_calls)
    branch (not (is_empty E.app_id))
        (do
          through string_new
          replacement ← acts (platform.il2cpp_string_new E.app_id)
          branch (not (is_null replacement))
              (do
                logi
                    "appid: SelectPhotonAppId #%u -> configured AppID {%s}; original kill-switch path skipped"
                    (nat call ∷ configured_secret_summary)
                pure replacement)
              (do
                loge "appid: il2cpp_string_new failed; falling back to game logic" []
                select_original settings method))
        (do
          logw "appid: PHOTON_APP_ID is empty; passthrough to game logic" []
          select_original settings method)
