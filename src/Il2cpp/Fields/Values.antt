-- ===== src/Il2cpp/Fields/Values.antt =====
-- `read_field` yields the field's value: fields narrower and wider than the variable.
use Prim.Native.String.{String}
use native.Mathlib.Nat.{
  pow-succ', zero-mod, lt_of_lt_of_le, pow-le-pow_right, one-le-pow, div-add-mod, mod-eq_of_lt,
  add-mul-mod_self_left,
}
use old_pixel_gun_3d_online.Base.{
  ℕ, zero, suc, ◌+◌, ◌-◌, ◌*◌, ◌/◌, ◌%◌, ◌^◌, ◌<◌, ◌≤◌, ◌≡◌, refl, sym, ap, ◌∙◌, true, false, ◌&&◌,
  some, [], ◌∷◌, ◌++◌, arith, Bytes, Ptr, is_null, length, length-append, length-take, take, drop,
  replicate,
}
use old_pixel_gun_3d_online.State.{
  Env, State, object_get_class, class_get_field_from_name, field_get_value,
}
use old_pixel_gun_3d_online.State.Monad.{bound}
use old_pixel_gun_3d_online.Il2cpp.Fields.{read_field, field_bytes, overlay, scratch, le_value}

-- The `width` bytes of a number, lowest first.
abbrev pub le_bytes : ℕ → ℕ → Bytes
le_bytes zero v = []
le_bytes (suc width) v = v % 256 ∷ le_bytes width (v / 256)

pub length-le_bytes : (k v : ℕ) → length (le_bytes k v) ≡ k
length-le_bytes zero v = refl
length-le_bytes (suc k) v = ap suc (length-le_bytes k (v / 256))

-- The lowest bytes of a number.
pub take-le_bytes : (n k v : ℕ) → n ≤ k → take n (le_bytes k v) ≡ le_bytes n v
take-le_bytes zero k v h = refl
take-le_bytes (suc n) zero v h = absurd (omega (arith, h))
take-le_bytes (suc n) (suc k) v h =
    ap (λ (l : Bytes). v % 256 ∷ l) (take-le_bytes n k (v / 256) (omega (arith, h)))

abbrev zeros : ℕ → Bytes
zeros n = replicate n 0

drop-zeros : (k n : ℕ) → drop k (zeros n) ≡ zeros (n - k)
drop-zeros zero n = let e : n ≡ n - 0 = omega arith in ap zeros e
drop-zeros (suc k) zero = let e : 0 ≡ 0 - suc k = omega arith in ap zeros e
drop-zeros (suc k) (suc n) =
    let e : n - k ≡ suc n - suc k = omega arith in drop-zeros k n ∙ ap zeros e

-- A remainder by `256 * p`, digit by digit.
mod_digit : (p v : ℕ) → 0 < p → v % (256 * p) ≡ v % 256 + 256 * (v / 256 % p)
mod_digit p v h =
    ap (λ (x : ℕ). x % (256 * p)) whole
    ∙ add-mul-mod_self_left (v % 256 + 256 * (v / 256 % p)) (256 * p) (v / 256 / p)
    ∙ mod-eq_of_lt (omega (arith, small))
  where
    whole : v ≡ v % 256 + 256 * (v / 256 % p) + 256 * p * (v / 256 / p)
    whole = omega (arith, div-add-mod (v / 256) p)

    small : v / 256 % p < p
    small = grind arith

zeros_value : (n m : ℕ) → le_value (take n (zeros m)) ≡ 0
zeros_value zero m = refl
zeros_value (suc n) zero = refl
zeros_value (suc n) (suc m) = omega (arith, zeros_value n m)

-- The first `n` bytes of a number of `k` bytes with zeros behind it.
take_value : (n k m v : ℕ) → v < 256 ^ k → le_value (take n (le_bytes k v ++ zeros m)) ≡ v % 256 ^ n
take_value zero k m v h = omega arith
take_value (suc n) zero m v h =
    zeros_value (suc n) m
    ∙ sym (ap (λ (x : ℕ). x % 256 ^ suc n) (omega arith) ∙ zero-mod (256 ^ suc n))
take_value (suc n) (suc k) m v h =
    rw (pow-succ' 256 n, mod_digit (256 ^ n) v (one-le-pow n 256 (omega arith)))
      (omega (arith, take_value n k m (v / 256) (omega (arith, pow-succ' 256 k))))

length-zeros : (n : ℕ) → length (zeros n) ≡ n
length-zeros zero = refl
length-zeros (suc n) = ap suc (length-zeros n)

length-take_padded :
    (n k v : ℕ) → k ≤ 16 → n ≤ 16 → length (take n (le_bytes k v ++ zeros (16 - k))) ≡ n
length-take_padded n k v h l = omega (
  arith,
  length-take n (le_bytes k v ++ zeros (16 - k)),
  length-append (le_bytes k v) (zeros (16 - k)),
  length-le_bytes k v,
  length-zeros (16 - k),
)

module _ {W : Type 0} (E : Env W) (size width v : ℕ) (object : Ptr) (name : String)
    (s : State W) where
  abbrev pub class_of : Ptr
  class_of = E.il2cpp_object_get_class object s.world

  abbrev pub field_of : Ptr
  field_of = E.il2cpp_class_get_field_from_name class_of name s.world

  -- With the three exports bound and the field found, a field of at most 16 bytes that holds `v`,
  -- lowest byte first, is read without a fault and without a change of the state into `size` bytes,
  -- and they hold `v` modulo `256 ^ size`: `v` itself for a field no wider than the variable, its
  -- lowest bytes for a wider one.
  pub read_field_value :
      is_null object ≡ false
      → bound object_get_class s && bound class_get_field_from_name s && bound field_get_value s
        ≡ true
      → is_null class_of ≡ false
      → is_null field_of ≡ false
      → size ≤ 16
      → width ≤ 16
      → v < 256 ^ width
      → E.il2cpp_field_get_value object field_of s.world ≡ le_bytes width v
      → (read : Bytes) × (read_field E size object name s ≡ some (some read, s))
        × (length read ≡ size)
        × (le_value read ≡ v % 256 ^ size)
        × (width ≤ size → le_value read ≡ v)
  unfolding read_field field_bytes
  read_field_value o b c f hs hw hv e = (
    take size (overlay (le_bytes width v) scratch),
    ground (arith, length-le_bytes width v),
    rw padded (length-take_padded size width v hw hs),
    value,
    λ fits. value ∙ mod-eq_of_lt (lt_of_lt_of_le hv (pow-le-pow_right (omega arith) fits)),
  )
    where
      padded : overlay (le_bytes width v) scratch ≡ le_bytes width v ++ zeros (16 - width)
      padded =
          ap (◌++◌ (le_bytes width v))
            (ap (λ n. drop n scratch) (length-le_bytes width v) ∙ drop-zeros width 16)

      value : le_value (take size (overlay (le_bytes width v) scratch)) ≡ v % 256 ^ size
      value = rw padded (take_value size width (16 - width) v hv)
