-- ===== src/Checks/Metadata.antt =====
-- Lookups and field reads in the toy runtime.
use old_pixel_gun_3d_online.Base.{codes, ◌≡◌, refl, ◌%◌, ◌^◌, ◌≤◌, some, Bytes, length, arith}
use old_pixel_gun_3d_online.Il2cpp.Metadata.{find_class, find_image}
use old_pixel_gun_3d_online.Il2cpp.Metadata.Images.{image_at, find_image-IsFirst}
use old_pixel_gun_3d_online.Il2cpp.Metadata.Search.{IsFirst, class_at, find_class-IsFirst}
use old_pixel_gun_3d_online.Il2cpp.Fields.{read_field, le_value}
use old_pixel_gun_3d_online.Il2cpp.Fields.Values.{read_field_value}
use old_pixel_gun_3d_online.Checks.Toy.{toy, platform, start}

find_class-IsFirst_example :
    IsFirst
      (class_at platform start.world 2 "" "PhotonNetwork")
      0
      3
      (find_class toy "" "PhotonNetwork" start)
find_class-IsFirst_example = find_class-IsFirst toy "" "PhotonNetwork" start refl refl refl

find_class_runs : find_class toy "" "PhotonNetwork" start ≡ 60
unfolding find_class
find_class_runs = refl

-- An `int32_t` field that holds 2, read into one byte.
read_field_value_example :
    (read : Bytes) × (read_field toy 1 50 "HostType" start ≡ some (some read, start))
    × (length read ≡ 1)
    × (le_value read ≡ 2 % 256 ^ 1)
    × (4 ≤ 1 → le_value read ≡ 2)
read_field_value_example =
    read_field_value toy 1 4 2 50 "HostType" start refl refl refl refl (omega arith) (omega arith)
      (omega arith) refl

find_image-IsFirst_example :
    IsFirst
      (image_at platform start.world 2 (codes "Assembly-CSharp.dll"))
      0
      3
      (find_image toy (codes "Assembly-CSharp.dll") start)
find_image-IsFirst_example =
    find_image-IsFirst toy (codes "Assembly-CSharp.dll") start refl refl refl
