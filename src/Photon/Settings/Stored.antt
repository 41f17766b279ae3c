-- ===== src/Photon/Settings/Stored.antt =====
-- Fields of the settings object that hold what was written.
use Prim.Native.String.{String}
use old_pixel_gun_3d_online.Base.{
  ℕ, ◌^◌, ◌<◌, ◌≤◌, take, ◌≡◌, refl, ap, ◌∙◌, Bool, true, false, not, ◌&&◌, ◌||◌, some, List, Bytes,
  Ptr, is_null, length, arith,
}
use old_pixel_gun_3d_online.State.{
  Env, Platform, Export, State, object_get_class, class_get_field_from_name, field_get_value,
  field_set_value,
}
use old_pixel_gun_3d_online.State.Monad.{bound, Returns}
use old_pixel_gun_3d_online.Il2cpp.Fields.{read_field, le_value}
use old_pixel_gun_3d_online.Il2cpp.Fields.Values.{
  le_bytes, take-le_bytes, length-le_bytes, read_field_value,
}
use old_pixel_gun_3d_online.Photon.Settings.{write_field}
use old_pixel_gun_3d_online.Photon.Settings.Rules.{Fields, Same, class_in, field_in}

-- A write copies as many of the bytes as the field is wide, and they can be read back.
pub record Stores {W : Type 0} (P : Platform W) (object : Ptr) : Type 0 where
  pub set_same :
      (field : Ptr) (value : Bytes) (w : W)
      → length (P.il2cpp_field_get_value object field w) ≤ length value
      → P.il2cpp_field_get_value object field (P.il2cpp_field_set_value object field value w)
        ≡ take (length (P.il2cpp_field_get_value object field w)) value

module _ {W : Type 0} (E : Env W) (settings : Ptr) where
  -- The settings have a field of this name, so many bytes wide and at most four, and the exports for it
  -- are bound.
  pub record Present (name : String) (width : ℕ) (s : State W) : Type 0 where
    pub object : is_null settings ≡ false
    pub exports :
        bound object_get_class s && bound class_get_field_from_name s && bound field_get_value s
        ≡ true
    pub writes : bound field_set_value s ≡ true
    pub klass : is_null (class_in E settings name s.world) ≡ false
    pub field : is_null (field_in E settings name s.world) ≡ false
    pub size :
        length (E.il2cpp_field_get_value settings (field_in E settings name s.world) s.world)
        ≡ width
    pub fits : width ≤ 4

  -- It is read as the number `v`.
  abbrev pub Reads : String → ℕ → State W → Type 0
  Reads name v s =
      (read : Bytes) × (read_field E 4 settings name s ≡ some (some read, s)) × (le_value read ≡ v)

  pub record Stored (name : String) (width v : ℕ) (s : State W) : Type 0 where
    present : Present name width s
    value :
        E.il2cpp_field_get_value settings (field_in E settings name s.world) s.world
        ≡ le_bytes width v

  pub Stored-Reads :
      (name : String) (width v : ℕ) (s : State W)
      → v < 256 ^ width
      → Stored name width v s
      → Reads name v s
  Stored-Reads name width v s fits h =
      let (read, same, size, low, exact) =
        read_field_value E 4 width v settings name s h.present.object h.present.exports
          h.present.klass h.present.field (omega arith) (omega (arith, h.present.fits)) fits
          h.value in
      (read, same, exact h.present.fits)

  bound_same : (e : Export) (s t : State W) → t.slots ≡ s.slots → bound e t ≡ bound e s
  bound_same e s t same = ap (λ (slots : Export → Ptr). not (is_null (slots e))) same

  value-Same :
      (name : String) (s t : State W)
      → Same E settings name s t
      → is_null (field_in E settings name s.world) ≡ false
      → E.il2cpp_field_get_value settings (field_in E settings name t.world) t.world
        ≡ E.il2cpp_field_get_value settings (field_in E settings name s.world) s.world
  value-Same name s t h there =
      ap (λ (f : Ptr). E.il2cpp_field_get_value settings f t.world) h.field ∙ h.value there

  pub Present-Same :
      (name : String) (width : ℕ) (s t : State W)
      → Same E settings name s t
      → Present name width s
      → Present name width t
  Present-Same name width s t h p = record {
    object = p.object;
    exports = rw (h.slots) p.exports;
    writes = rw (h.slots) p.writes;
    klass = ap is_null h.klass ∙ p.klass;
    field = ap is_null h.field ∙ p.field;
    size = ap length (value-Same name s t h p.field) ∙ p.size;
    fits = p.fits;
  }

  pub Stored-log :
      {name : String} {width v : ℕ} {s : State W} {l : List _}
      → Stored name width v s
      → Stored name width v (record s { log = l })
  Stored-log h = record {
    present = record {
      object = h.present.object;
      exports = h.present.exports;
      writes = h.present.writes;
      klass = h.present.klass;
      field = h.present.field;
      size = h.present.size;
      fits = h.present.fits;
    };
    value = h.value;
  }

  pub Stored-Same :
      (name : String) (width v : ℕ) (s t : State W)
      → Same E settings name s t
      → Stored name width v s
      → Stored name width v t
  Stored-Same name width v s t h p = record {
    present = Present-Same name width s t h p.present;
    value = value-Same name s t h p.present.field ∙ p.value;
  }

pub any_true : (a b c : Bool) → b ≡ true → a || b || c ≡ true
any_true a b c e = ground arith

all_usable :
    (o a b c d : Bool) → o ≡ false → a && b && c ≡ true → d ≡ true → not o && a && b && d ≡ true
all_usable o a b c d eo e ed = ground arith

module _ {W : Type 0} (E : Env W) (settings : Ptr) (laws : Fields E.platform settings)
    (stores : Stores E.platform settings) where
  pub write_field-Stored :
      (name : String) (width v : ℕ) (s : State W)
      → Present E settings name width s
      → Returns
          (write_field E settings name (le_bytes 4 v) s)
          (λ ok t. (ok ≡ true) × Stored E settings name width v t)
  unfolding write_field
  write_field-Stored name width v s p =
      rw
        (
          all_usable (is_null settings) (bound object_get_class s)
              (bound class_get_field_from_name s) (bound field_get_value s)
              (bound field_set_value s) p.object p.exports p.writes,
          p.klass,
          p.field,
        )
        (refl, stored)
    where
      field : Ptr
      field = field_in E settings name s.world

      after : State W
      after = record s { world = E.il2cpp_field_set_value settings field (le_bytes 4 v) s.world }

      same_class : class_in E settings name after.world ≡ class_in E settings name s.world
      same_class = laws.set_class field (le_bytes 4 v) s.world

      same_field : field_in E settings name after.world ≡ field
      same_field =
          laws.set_field field (le_bytes 4 v) _ name s.world
          ∙ ap (λ (k : Ptr). E.il2cpp_class_get_field_from_name k name s.world) same_class

      value :
          E.il2cpp_field_get_value settings (field_in E settings name after.world) after.world
          ≡ le_bytes width v
      value =
          ap (λ (f : Ptr). E.il2cpp_field_get_value settings f after.world) same_field
          ∙ stores.set_same field (le_bytes 4 v) s.world (rw p.size p.fits)
          ∙ ap (λ (n : ℕ). take n (le_bytes 4 v)) p.size
          ∙ take-le_bytes width 4 v p.fits

      stored : Stored E settings name width v after
      stored = record {
        present = record {
          object = p.object;
          exports = p.exports;
          writes = p.writes;
          klass = ap is_null same_class ∙ p.klass;
          field = ap is_null same_field ∙ p.field;
          size = ap length value ∙ length-le_bytes width v;
          fits = p.fits;
        };
        value = value;
      }
