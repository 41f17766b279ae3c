-- ===== src/Cloud/Settings.antt =====
-- The route that `force_cloud` verifies, as a property of the game's settings object.
use Prim.Native.String.{String}
use old_pixel_gun_3d_online.Base.{
  ℕ, ◌≡◌, ◌+◌, ◌%◌, ◌^◌, Option-cases, Bool-cases, refl, sym, ◌∙◌, inl, inr, Bool, true, Option,
  some, Bytes, Ptr, is_null, ℤ, arith,
}
use old_pixel_gun_3d_online.State.{Env, State, string_length}
use old_pixel_gun_3d_online.State.Monad.{Ensures}
use old_pixel_gun_3d_online.Il2cpp.Fields.{read_field-fault, read_field-some, field_bytes, le_value}
use old_pixel_gun_3d_online.Cloud.{verify, report, verdict}

module _ {W : Type 0} (E : Env W) where
  -- The field of this name is there and its first four bytes hold `v`.
  abbrev pub FieldIs : Ptr → String → ℕ → State W → Type 0
  FieldIs object name v s =
      (read : Bytes) × (field_bytes E 4 object name s.slots s.world ≡ some (some read))
      × (le_value read ≡ v)

  -- PhotonCloud in the region eu, with this AppID string.
  pub record Routed (settings app_id : Ptr) (s : State W) : Type 0 where
    pub host : FieldIs settings "HostType" 1 s
    pub region : FieldIs settings "PreferredRegion" 0 s
    pub app : FieldIs settings "AppID" app_id s

module _ (host region stored : Option Bytes) (app_id : Ptr) where
  abbrev pub Holds : Option Bytes → ℕ → Type 0
  Holds r v = (read : Bytes) × (r ≡ some read) × (le_value read ≡ v)

  verdict_sound :
      verdict host region stored app_id ≡ true → Holds host 1 × Holds region 0 × Holds stored app_id
  verdict_sound h = ground arith

  pub verdict_complete :
      Holds host 1 → Holds region 0 → Holds stored app_id → verdict host region stored app_id ≡ true
  verdict_complete a b c = ground arith

module _ {W : Type 0} (E : Env W) (point : String) (settings app_id : Ptr) where
  -- What the read-back leaves.
  pub record Verified (s : State W) (ready : Bool) (s' : State W) : Type 0 where
    pub sound : ready ≡ true → Routed E settings app_id s'
    pub complete : Routed E settings app_id s' → ready ≡ true
    pub flagged : s'.cloud.cloud_ready ≡ ready
    pub counted : s'.cloud.cloud_apply_count ≡ (s.cloud.cloud_apply_count + 1) % 2 ^ 32
    pub world : s'.world ≡ s.world
    pub originals : s'.originals ≡ s.originals

  module _ (s s' : State W) (host region stored : Option Bytes) where
    Holds-at :
        (name : String) (v : ℕ) (r : Option Bytes)
        → field_bytes E 4 settings name s.slots s.world ≡ some r
        → Holds host region stored app_id r v
        → FieldIs E settings name v s
    Holds-at name v r e (read, is, eq) = (read, cc, eq)

    Holds-from :
        (name : String) (v : ℕ) (r : Option Bytes)
        → field_bytes E 4 settings name s.slots s.world ≡ some r
        → FieldIs E settings name v s
        → Holds host region stored app_id r v
    Holds-from name v r e (read, is, eq) = (read, cc, eq)

    same_fields :
        s'.world ≡ s.world
        → s'.slots ≡ s.slots
        → Routed E settings app_id s
        → Routed E settings app_id s'
    same_fields w l r = record {
      host = rw (w, l) r.host;
      region = rw (w, l) r.region;
      app = rw (w, l) r.app;
    }

  -- The last steps, at the values that were read.
  reported :
      (s : State W) (host region stored : Option Bytes) (chars : ℤ)
      → field_bytes E 4 settings "HostType" s.slots s.world ≡ some host
      → field_bytes E 4 settings "PreferredRegion" s.slots s.world ≡ some region
      → field_bytes E 4 settings "AppID" s.slots s.world ≡ some stored
      → Ensures (report E point host region stored app_id chars s) (Verified s)
  unfolding report
  reported s host region stored chars h r a =
      elim (Bool-cases (verdict host region stored app_id)) [
        | inl good ↦ rw good (record {
          sound = λ _.
              let (x, y, z) = verdict_sound host region stored app_id good in
              record {
                host = Holds-at s s host region stored "HostType" 1 host h x;
                region = Holds-at s s host region stored "PreferredRegion" 0 region r y;
                app = Holds-at s s host region stored "AppID" app_id stored a z;
              };
          complete = λ _. refl;
          flagged = refl;
          counted = refl;
          world = refl;
          originals = refl;
        })
        | inr bad ↦ rw bad (record {
          sound = λ e. cc;
          complete = λ routed.
              sym bad
              ∙ verdict_complete host region stored app_id
                  (Holds-from s s host region stored "HostType" 1 host h routed.host)
                  (Holds-from s s host region stored "PreferredRegion" 0 region r routed.region)
                  (Holds-from s s host region stored "AppID" app_id stored a routed.app);
          flagged = refl;
          counted = refl;
          world = refl;
          originals = refl;
        })
      ]

  pub verify_outcome : (s : State W) → Ensures (verify E point settings app_id s) (Verified s)
  unfolding verify
  verify_outcome s = elim (Option-cases (field_bytes E 4 settings "HostType" s.slots s.world)) [
    | inl fault ↦ rw (read_field-fault E 4 settings "HostType" s fault) tt
    | inr (host, h) ↦
        elim (Option-cases (field_bytes E 4 settings "PreferredRegion" s.slots s.world)) [
          | inl fault ↦
              rw
                (
                  read_field-some E 4 settings "HostType" s h,
                  read_field-fault E 4 settings "PreferredRegion" s fault,
                )
                tt
          | inr (region, r) ↦
              elim (Option-cases (field_bytes E 4 settings "AppID" s.slots s.world)) [
                | inl fault ↦
                    rw
                      (
                        read_field-some E 4 settings "HostType" s h,
                        read_field-some E 4 settings "PreferredRegion" s r,
                        read_field-fault E 4 settings "AppID" s fault,
                      )
                      tt
                | inr (stored, a) ↦
                    rw
                      (
                        read_field-some E 4 settings "HostType" s h,
                        read_field-some E 4 settings "PreferredRegion" s r,
                        read_field-some E 4 settings "AppID" s a,
                      )
                      (elim (Bool-cases (is_null (s.slots string_length))) [
                        | inl unbound ↦ rw unbound (reported s host region stored _ h r a)
                        | inr there ↦ rw there (reported s host region stored _ h r a)
                      ])
              ]
        ]
  ]
