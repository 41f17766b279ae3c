-- ===== src/Checks/Secrets.antt =====
-- Two builds whose AppIDs, `wCnt` and `S0Rk`, have the same fingerprint, in a runtime whose state is
-- the text of the one credential it holds, at 200.
use Prim.Native.String.{String}
use old_pixel_gun_3d_online.Base.{
  ℕ, zero, suc, ◌≡◌, ◌⊎◌, inl, inr, refl, sym, subst, ap, ◌∙◌, true, false, Bool-cases, Bool, ◌&&◌,
  ◌||◌, ◌==◌, Option, none, some, [], ◌∷◌, Bytes, codes, length, Ptr, is_null, pos, arith,
  if◌then◌else◌,
}
use old_pixel_gun_3d_online.State.{
  Env, Platform, State, string_length, string_chars, object_get_class, class_get_field_from_name,
  field_get_value,
}
use old_pixel_gun_3d_online.State.Monad.{bound}
use old_pixel_gun_3d_online.Il2cpp.Fields.{field_bytes, le_value}
use old_pixel_gun_3d_online.Il2cpp.Strings.{to_utf8}
use old_pixel_gun_3d_online.Il2cpp.Fields.Values.{le_bytes}
use old_pixel_gun_3d_online.Text.Fnv.{fnv1a, round}
use old_pixel_gun_3d_online.Text.Utf8.{convert}
use old_pixel_gun_3d_online.Photon.Hooks.Client.{call_use_cloud}
use old_pixel_gun_3d_online.Secrets.{Secrets, Prepared, SameRuns, Twins}
use old_pixel_gun_3d_online.Game.{
  Session, leave, enter, traced, enter_set_up_photon, enter_game_connect_squad, play,
}
use old_pixel_gun_3d_online.Secrets.Sessions.{play-SameRuns}
use old_pixel_gun_3d_online.Checks.Toy.{field_id}
use old_pixel_gun_3d_online.Checks.Toy

abbrev first : Bytes
first = codes "wCnt"

abbrev second : Bytes
second = codes "S0Rk"

same_prints : fnv1a second ≡ fnv1a first
unfolding fnv1a round
same_prints = refl

abbrev byte_at : Bytes → ℕ → ℕ
byte_at [] i = 0
byte_at (b ∷ bs) zero = b
byte_at (b ∷ bs) (suc i) = byte_at bs i

abbrev runtime : Platform Bytes
runtime = record {
  il2cpp_string_new = λ b w. (200, b);
  il2cpp_string_length = λ p w. pos 4;
  il2cpp_string_chars = λ p w. p;
  unit_at = λ p i w. if p == 200 then byte_at w i else 65;
  il2cpp_domain_get = λ w. 1;
  il2cpp_domain_get_assemblies = λ d w. (2, 3);
  assembly_at = λ a i w. if i == 0 then 0 else i;
  il2cpp_assembly_get_image = λ a w. a;
  il2cpp_image_get_name = λ i w. some (codes "Assembly-CSharp.dll");
  il2cpp_class_from_name = λ i ns name w. if i == 2 then 60 else 0;
  il2cpp_class_get_method_from_name = λ k name n w. 90;
  il2cpp_class_get_field_from_name = λ k name w. field_id name;
  il2cpp_object_get_class = λ o w. 60;
  il2cpp_field_get_value = λ o f w. le_bytes 4 (if f == 73 then 200 else 1);
  il2cpp_field_set_value = λ o f b w. w;
  network_initialized = λ w. true;
  il2cpp_field_static_get_value = λ f w. 50;
  il2cpp_field_static_set_value = λ f b w. w;
  il2cpp_thread_attach = λ d w. (7, w);
  il2cpp_thread_detach = λ t w. w;
  pointer_at = λ p w. 91;
  address_of = λ h. 1000;
  shadowhook_errno_ok = pos 0;
  shadowhook_init = λ w. (pos 0, w);
  shadowhook_hook_func_addr = λ a r w. record { stub = 5; orig = some 95; after = w };
  shadowhook_unhook = λ p w. w;
  shadowhook_get_errno = λ w. pos 1;
  usleep = λ n w. w;
}

abbrev build : Bytes → Env Bytes
build app_id = record {
  config = record {
    selfhosted = false;
    app_id = app_id;
    server_address = codes "10.0.0.2";
    server_port = pos 5055;
  };
  platform = runtime;
  invoke_void = λ p args s. some (tt, s);
  invoke_bool = λ p args s. some (true, s);
  invoke_ptr = λ p args s. some (100, s);
  invoke_int = λ p args s. some (pos 4, s);
}

abbrev view : Secrets Bytes
view = record {
  Alike = λ w u. (u ≡ w) ⊎ ((w ≡ first) × (u ≡ second));
  IsSecret = λ p. p ≡ 200;
  IsGetter = λ p. Unit;
}

abbrev begin : State Bytes
begin = record {
  world = first;
  slots = λ e. 1;
  originals = λ h. 95;
  engine = Toy.start.engine;
  cloud = Toy.start.cloud;
  photon = Toy.start.photon;
  log = [];
}

-- What a string is converted to differs in the text of the credential only.
twin_text :
    (Q : Bytes → ℕ) (p : Ptr) (s : State Bytes)
    → Q second ≡ Q first
    → Q (to_utf8 (build second) p 256 (record s { world = second }))
      ≡ Q (to_utf8 (build first) p 256 (record s { world = first }))
unfolding to_utf8 convert
twin_text Q p s same = elim (Bool-cases (is_null p)) [
  | inl z ↦ rw z refl
  | inr z ↦ rw z (elim (Bool-cases (bound string_length s && bound string_chars s)) [
    | inl there ↦ rw there (elim (Bool-cases (p == 200)) [ inl e ↦ rw e same | inr e ↦ rw e refl ])
    | inr gone ↦ rw gone refl
  ])
]

equal_text :
    (Q : Bytes → ℕ) (p : Ptr) (s : State Bytes) (u : Bytes)
    → Q second ≡ Q first
    → view.Alike s.world u
    → Q (to_utf8 (build second) p 256 (record s { world = u })) ≡ Q (to_utf8 (build first) p 256 s)
unfolding to_utf8
equal_text Q p s u same (inl e) = rw e refl
equal_text Q p s u same (inr (e, f)) =
    rw f (twin_text Q p s same)
    ∙ ap (λ w. Q (to_utf8 (build first) p 256 (record s { world = w }))) (sym e)

equal_unit :
    {w u : Bytes}
    → view.Alike w u
    → (p : Ptr) → ¬ view.IsSecret p
    → (i : ℕ) → runtime.unit_at p i u ≡ runtime.unit_at p i w
equal_unit l p public i = elim (Bool-cases (p == 200)) [
  | inl e ↦ absurd (public (ground arith))
  | inr e ↦ rw e refl
]

-- No secret is read where a number stands.
abbrev IsPublic : Option (Option Bytes) → Type 0
IsPublic none = Unit
IsPublic (some none) = Unit
IsPublic (some (some read)) = ¬ view.IsSecret (le_value read)

field_bytes-IsPublic :
    (object : Ptr) (name : String) (s : State Bytes)
    → field_id name ≡ 80
    → IsPublic (field_bytes (build first) 4 object name s.slots s.world)
unfolding field_bytes
field_bytes-IsPublic object name s e =
    rw e
      (elim (Bool-cases (
        is_null object
        || is_null (s.slots object_get_class)
        || is_null (s.slots class_get_field_from_name)
        || is_null (s.slots field_get_value))) [ inl z ↦ rw z tt | inr z ↦ rw z λ e. ground arith ])

instance twins : Twins (build first) (build second) view
twins = record {
  same_selfhosted = refl;
  same_server_address = refl;
  same_server_port = refl;
  same_app_length = refl;
  same_app_print = same_prints;
  same_domain = λ l. refl;
  same_assemblies = λ l domain. refl;
  same_assembly_at = λ l assemblies i. refl;
  same_image = λ l assembly. refl;
  same_class = λ l image namespaze name. refl;
  same_method = λ l klass name count. refl;
  same_field = λ l klass name. refl;
  same_class_of = λ l object. refl;
  same_value = λ l object field. refl;
  same_static = λ l field. refl;
  same_initialized = λ l. refl;
  same_pointer = λ l address. refl;
  same_length = λ l string. refl;
  same_chars = λ l string. refl;
  same_unit = λ l string public i. equal_unit l string public i;
  same_text_length = λ string s u l. equal_text length string s u refl l;
  same_print = λ string s u l. equal_text fnv1a string s u same_prints l;
  same_new_app_id = λ l. (refl, inr (refl, refl));
  same_new = λ l text. (refl, inl refl);
  same_set = λ l object field value. l;
  same_static_set = λ l field value. l;
  same_void = λ fn args s u l p. (u, refl, l, p);
  same_bool = λ fn args s u l p. (u, refl, l, p);
  same_ptr = λ fn args s u l p. (u, refl, l, p);
  same_int = λ fn args s u l p. (u, refl, l, p);
  getter_found = λ s. tt;
  getter_public = λ fn args s getter e. ground arith;
  address_public =
      λ object s e. subst IsPublic e (field_bytes-IsPublic object "ServerAddress" s refl);
  message_public =
      λ object s e. subst IsPublic e (field_bytes-IsPublic object "DebugMessage" s refl);
}

begin-Prepared : Prepared view begin
begin-Prepared = record { address = λ z. tt; version = λ z. tt }

-- The game sets Photon up, passes the credential at 200 on to UseCloud, and connects.
abbrev visit : Session Bool
visit =
    enter (enter_set_up_photon 40 41)
      λ _. enter (traced (call_use_cloud 50 200 42)) λ _. enter (enter_game_connect_squad 43) leave

play-SameRuns_example :
    SameRuns view
      (play (build first) visit begin)
      (play (build second) visit (record begin { world = second }))
play-SameRuns_example =
    play-SameRuns (build first) (build second) view visit (tt, λ _. (tt, λ _. (tt, λ b. tt))) begin
      second (inr (refl, refl)) begin-Prepared
