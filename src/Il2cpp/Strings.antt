-- ===== src/Il2cpp/Strings.antt =====
-- `to_utf8` of il2cpp.cpp: a managed string as text for the log.
use old_pixel_gun_3d_online.Base.{
  ℕ, ◌==◌, not, ◌&&◌, [], Bytes, codes, Ptr, is_null, pos, negsuc, if◌then◌else◌,
}
use old_pixel_gun_3d_online.State.{Env, State, string_length, string_chars}
use old_pixel_gun_3d_online.State.Monad.{bound}
use old_pixel_gun_3d_online.Text.Utf8.{convert}

module _ {W : Type 0} (E : Env W) where
  open E use {platform}

  unfoldable pub to_utf8 : Ptr → ℕ → State W → Bytes
  to_utf8 managed_string max_code_units s =
      let chars = platform.il2cpp_string_chars managed_string s.world in
      if is_null managed_string
      then codes "<null>"
      else if not (bound string_length s && bound string_chars s)
      then codes "<string-api-unavailable>"
      else elim (platform.il2cpp_string_length managed_string s.world) [
        | negsuc n ↦ []
        | pos n ↦
            if n == 0
            then []
            else if is_null chars
            then codes "<null-chars>"
            else convert n (λ i. platform.unit_at chars i s.world) max_code_units
      ]
