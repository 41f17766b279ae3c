-- ===== src/Log.antt =====
-- log.h: what `print` puts into a line of the log. The text that vsnprintf has made of the format and
-- the arguments is given; the fields that snprintf sets into the line are an `Entry`.
pub mod Spelling
pub mod Shown
pub mod Order
use old_pixel_gun_3d_online.Base.{
  ℕ, ◌+◌, ◌-◌, ◌*◌, ◌/◌, ◌%◌, ◌^◌, Bool, true, false, not, ◌&&◌, leb, Option, none, some, List, [],
  ◌∷◌, Bytes, take, codes, Ptr, is_null, if◌then◌else◌,
}
use old_pixel_gun_3d_online.State.{Level}
use old_pixel_gun_3d_online.ElfSym.{file_of}

-- `Dl_info`, its first two members.
pub record DlInfo : Type 0 where
  pub dli_fname : Option Bytes
  pub dli_fbase : Ptr

-- What `print` calls, on a state `W` of the process. Time passes where the clock is read.
pub record System (W : Type 0) : Type 0 where
  -- seconds and nanoseconds, `none` if the call fails
  pub clock_gettime : W → Option (ℕ × ℕ) × W
  pub gettid : W → ℕ
  -- `none` if the result is 0
  pub dladdr : Ptr → W → Option DlInfo

-- The inline variables of log.h; `clock_once` says whether the initialisation has run.
pub record Logger : Type 0 where
  pub g_sequence : ℕ
  pub clock_once : Bool
  pub g_clock_origin_ms : ℕ

-- `pc=%s+0x...`, or `pc=0x...`
pub data Place : Type 0 where
  inside : Bytes → ℕ → Place
  at : ℕ → Place

pub record Entry : Type 0 where
  pub priority : Level
  pub sequence : ℕ
  pub elapsed : ℕ
  pub thread_id : ℕ
  pub place : Place
  pub message : Bytes

unfoldable pub base_name : Option Bytes → Bytes
base_name none = codes "?"
base_name (some []) = codes "?"
base_name (some (b ∷ bs)) = file_of (b ∷ bs)

-- `raw & ~1`, of an address
abbrev pub even_address : Ptr → Ptr
even_address raw = raw - raw % 2

abbrev pub millis : Option (ℕ × ℕ) → ℕ
millis none = 0
millis (some (tv_sec, tv_nsec)) = (tv_sec * 1000 % 2 ^ 64 + tv_nsec / 1000000) % 2 ^ 64

-- A call of `print`, and what the process has done before it.
pub record Call (W : Type 0) : Type 0 where
  pub before : W → W
  pub priority : Level
  pub return_address : Ptr
  pub text : Bytes

module _ {W : Type 0} (S : System W) where
  abbrev pub monotonic_ms : W → ℕ × W
  monotonic_ms w = let (value, v) = S.clock_gettime w in (millis value, v)

  -- `pthread_once(&g_clock_once, initialize_clock_origin)`
  unfoldable pub start_clock : W → Logger → Logger × W
  start_clock w l =
      if l.clock_once
      then (l, w)
      else let (origin, v) = monotonic_ms w in
        (record l { clock_once = true; g_clock_origin_ms = origin }, v)

  -- The place that `info` gives for the address `pc`.
  unfoldable pub place_of : Ptr → Option DlInfo → Place
  place_of pc none = at pc
  place_of pc (some info) =
      if not (is_null pc) && not (is_null info.dli_fbase)
      then inside (base_name info.dli_fname)
          (if leb info.dli_fbase pc then pc - info.dli_fbase else 0)
      else at pc

  unfoldable pub print : Level → Ptr → Bytes → W → Logger → Entry × Logger × W
  print priority return_address text w l =
      let (m, u) = start_clock w l in
      let (now, v) = monotonic_ms u in
      let sequence = (m.g_sequence + 1) % 2 ^ 32 in
      let pc = even_address return_address in
      (
        record {
          priority = priority;
          sequence = sequence;
          elapsed = if leb m.g_clock_origin_ms now then now - m.g_clock_origin_ms else 0;
          thread_id = S.gettid v;
          place = place_of pc (S.dladdr pc v);
          message = take 3071 text;
        },
        record m { g_sequence = sequence },
        v,
      )

  unfoldable pub print_each : List (Call W) → W → Logger → List Entry
  print_each [] w l = []
  print_each (c ∷ cs) w l =
      let (e, m, v) = print c.priority c.return_address c.text (c.before w) l in
      e ∷ print_each cs v m
