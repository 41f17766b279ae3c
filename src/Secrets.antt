-- ===== src/Secrets.antt =====
-- Two builds that differ in their AppID, in two runs of the game that differ in the texts of its
-- credentials: what the log of photon_hooks.cpp and cloud_guard.h can tell them apart by. Rules has
-- one rule for each way to build code, Reads the lookups and the texts, Probes and Hooks the code of
-- photon_hooks.cpp, Gates that of cloud_guard.h.
pub mod Rules
pub mod Reads
pub mod Probes
pub mod Settings
pub mod Hooks
pub mod Override
pub mod Gates
pub mod Sessions
use Prim.Native.String.{String}
use old_pixel_gun_3d_online.Base.{
  ℕ, Bool, false, ◌≡◌, Option, none, some, List, [], ◌∷◌, Bytes, length, Ptr, is_null,
}
use old_pixel_gun_3d_online.State.{Env, State, Value, ptr, get_game_version}
use old_pixel_gun_3d_online.State.Monad.{Ensures}
use old_pixel_gun_3d_online.Text.Fnv.{fnv1a}
use old_pixel_gun_3d_online.Il2cpp.Fields.{field_bytes, le_value}
use old_pixel_gun_3d_online.Il2cpp.Metadata.{find_method_info, method_pointer}
use old_pixel_gun_3d_online.Il2cpp.Strings.{to_utf8}

-- Which states of the process differ in the texts of secrets only, which managed strings are such
-- secrets, and which entries return texts that are not.
pub record Secrets (W : Type 0) : Type 1 where
  pub Alike : W → W → Type 0
  pub IsSecret : Ptr → Type 0
  pub IsGetter : Ptr → Type 0

module _ {W : Type 0} (V : Secrets W) where
  open V use {Alike, IsGetter}

  -- The getters whose text is logged are what they are taken for.
  pub record Prepared (s : State W) : Type 0 where
    pub address : is_null s.photon.address_fn ≡ false → IsGetter s.photon.address_fn
    pub version :
        is_null (s.originals get_game_version) ≡ false → IsGetter (s.originals get_game_version)

  -- A text that may stand in the log.
  abbrev pub Shown : Ptr → Type 0
  Shown string = is_null string ≡ false → ¬ V.IsSecret string

  -- Both runs fault, or both return the same result, with equal globals and an equal log.
  abbrev pub SameRuns : {A : Type 0} → Option (A × State W) → Option (A × State W) → Type 0
  SameRuns none r = r ≡ none
  SameRuns (some (a, t)) r =
      (u : W) × (r ≡ some (a, record t { world = u })) × Alike t.world u × Prepared t

-- The first build and the second, `F`.
pub record Twins {W : Type 0} (E F : Env W) (V : Secrets W) : Type 0 where
  -- The constants of the builds, whose AppIDs have the same length and the same fingerprint.
  pub same_selfhosted : F.selfhosted ≡ E.selfhosted
  pub same_server_address : F.server_address ≡ E.server_address
  pub same_server_port : F.server_port ≡ E.server_port
  pub same_app_length : length F.app_id ≡ length E.app_id
  pub same_app_print : fnv1a F.app_id ≡ fnv1a E.app_id
  -- The runtime has the same tables, and objects with the same fields, in both.
  pub same_domain : {w u : W} → V.Alike w u → F.il2cpp_domain_get u ≡ E.il2cpp_domain_get w
  pub same_assemblies :
      {w u : W}
      → V.Alike w u
      → (domain : Ptr)
      → F.il2cpp_domain_get_assemblies domain u ≡ E.il2cpp_domain_get_assemblies domain w
  pub same_assembly_at :
      {w u : W}
      → V.Alike w u
      → (assemblies : Ptr) (i : ℕ) → F.assembly_at assemblies i u ≡ E.assembly_at assemblies i w
  pub same_image :
      {w u : W}
      → V.Alike w u
      → (assembly : Ptr)
      → F.il2cpp_assembly_get_image assembly u ≡ E.il2cpp_assembly_get_image assembly w
  pub same_class :
      {w u : W}
      → V.Alike w u
      → (image : Ptr) (namespaze name : String)
      → F.il2cpp_class_from_name image namespaze name u
        ≡ E.il2cpp_class_from_name image namespaze name w
  pub same_method :
      {w u : W}
      → V.Alike w u
      → (klass : Ptr) (name : String) (count : ℕ)
      → F.il2cpp_class_get_method_from_name klass name count u
        ≡ E.il2cpp_class_get_method_from_name klass name count w
  pub same_field :
      {w u : W}
      → V.Alike w u
      → (klass : Ptr) (name : String)
      → F.il2cpp_class_get_field_from_name klass name u
        ≡ E.il2cpp_class_get_field_from_name klass name w
  pub same_class_of :
      {w u : W}
      → V.Alike w u
      → (object : Ptr) → F.il2cpp_object_get_class object u ≡ E.il2cpp_object_get_class object w
  pub same_value :
      {w u : W}
      → V.Alike w u
      → (object field : Ptr)
      → F.il2cpp_field_get_value object field u ≡ E.il2cpp_field_get_value object field w
  pub same_static :
      {w u : W}
      → V.Alike w u
      → (field : Ptr)
      → F.il2cpp_field_static_get_value field u ≡ E.il2cpp_field_static_get_value field w
  pub same_initialized : {w u : W} → V.Alike w u → F.network_initialized u ≡ E.network_initialized w
  pub same_pointer :
      {w u : W} → V.Alike w u → (address : Ptr) → F.pointer_at address u ≡ E.pointer_at address w
  -- A string has the same length and the same place in both, and one that is not a secret the same
  -- code units. What a secret is converted to has the same length and the same fingerprint.
  pub same_length :
      {w u : W}
      → V.Alike w u
      → (string : Ptr) → F.il2cpp_string_length string u ≡ E.il2cpp_string_length string w
  pub same_chars :
      {w u : W}
      → V.Alike w u
      → (string : Ptr) → F.il2cpp_string_chars string u ≡ E.il2cpp_string_chars string w
  pub same_unit :
      {w u : W}
      → V.Alike w u
      → (string : Ptr) → ¬ V.IsSecret string
      → (i : ℕ)
      → F.unit_at (E.il2cpp_string_chars string w) i u
        ≡ E.unit_at (E.il2cpp_string_chars string w) i w
  pub same_text_length :
      (string : Ptr) (s : State W) (u : W)
      → V.Alike s.world u
      → length (to_utf8 F string 256 (record s { world = u })) ≡ length (to_utf8 E string 256 s)
  pub same_print :
      (string : Ptr) (s : State W) (u : W)
      → V.Alike s.world u
      → fnv1a (to_utf8 F string 256 (record s { world = u })) ≡ fnv1a (to_utf8 E string 256 s)
  -- Where a string is stored depends on its length, and writes of the same bytes keep the runs alike.
  pub same_new_app_id :
      {w u : W}
      → V.Alike w u
      → ((F.il2cpp_string_new F.app_id u).0 ≡ (E.il2cpp_string_new E.app_id w).0)
        × V.Alike (E.il2cpp_string_new E.app_id w).1 (F.il2cpp_string_new F.app_id u).1
  pub same_new :
      {w u : W}
      → V.Alike w u
      → (text : Bytes)
      → ((F.il2cpp_string_new text u).0 ≡ (E.il2cpp_string_new text w).0)
        × V.Alike (E.il2cpp_string_new text w).1 (F.il2cpp_string_new text u).1
  pub same_set :
      {w u : W}
      → V.Alike w u
      → (object field : Ptr) (value : Bytes)
      → V.Alike
          (E.il2cpp_field_set_value object field value w)
          (F.il2cpp_field_set_value object field value u)
  pub same_static_set :
      {w u : W}
      → V.Alike w u
      → (field : Ptr) (value : Bytes)
      → V.Alike
          (E.il2cpp_field_static_set_value field value w)
          (F.il2cpp_field_static_set_value field value u)
  -- The game passes its credentials on and does not look into them.
  pub same_void :
      (fn : Ptr) (args : List Value) (s : State W) (u : W)
      → V.Alike s.world u
      → Prepared V s
      → SameRuns V (E.invoke_void fn args s) (F.invoke_void fn args (record s { world = u }))
  pub same_bool :
      (fn : Ptr) (args : List Value) (s : State W) (u : W)
      → V.Alike s.world u
      → Prepared V s
      → SameRuns V (E.invoke_bool fn args s) (F.invoke_bool fn args (record s { world = u }))
  pub same_ptr :
      (fn : Ptr) (args : List Value) (s : State W) (u : W)
      → V.Alike s.world u
      → Prepared V s
      → SameRuns V (E.invoke_ptr fn args s) (F.invoke_ptr fn args (record s { world = u }))
  pub same_int :
      (fn : Ptr) (args : List Value) (s : State W) (u : W)
      → V.Alike s.world u
      → Prepared V s
      → SameRuns V (E.invoke_int fn args s) (F.invoke_int fn args (record s { world = u }))
  -- The texts that are logged in full are no secrets: the server address, the game version, and the
  -- fields `ServerAddress` and `DebugMessage`.
  pub getter_found :
      (s : State W)
      → V.IsGetter
          (method_pointer E (find_method_info E "" "PhotonNetwork" "get_ServerAddress" 0 s) s)
  pub getter_public :
      (fn : Ptr) (args : List Value) (s : State W)
      → V.IsGetter fn
      → Ensures (E.invoke_ptr fn args s) (λ string _. ¬ V.IsSecret string)
  pub address_public :
      (object : Ptr) (s : State W) {read : Bytes}
      → field_bytes E 4 object "ServerAddress" s.slots s.world ≡ some (some read)
      → ¬ V.IsSecret (le_value read)
  pub message_public :
      (object : Ptr) (s : State W) {read : Bytes}
      → field_bytes E 4 object "DebugMessage" s.slots s.world ≡ some (some read)
      → ¬ V.IsSecret (le_value read)
