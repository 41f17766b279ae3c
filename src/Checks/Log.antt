-- ===== src/Checks/Log.antt =====
-- Two lines of the log, in a process whose clock stops after a hundred seconds.
use old_pixel_gun_3d_online.Base.{
  ℕ, ◌+◌, ◌*◌, ◌/◌, ◌%◌, ◌^◌, ◌≤◌, ◌≡◌, refl, false, ltb, some, List, [], ◌∷◌, length, codes, arith,
  if◌then◌else◌,
}
use old_pixel_gun_3d_online.State.{info, error}
use old_pixel_gun_3d_online.Log.{
  System, Logger, Call, DlInfo, inside, base_name, start_clock, place_of, print, print_each,
  even_address,
}
use old_pixel_gun_3d_online.Log.Shown.{Shows, place_of-Shows}
use old_pixel_gun_3d_online.Log.Order.{
  Steady, Numbered, Ascending, print_each-Numbered, print_each-Ascending,
}

abbrev seconds : ℕ → ℕ
seconds w = if ltb w 100 then w else 100

abbrev libil2cpp : DlInfo
libil2cpp = record { dli_fname = some (codes "/data/lib/libil2cpp.so"); dli_fbase = 4096 }

abbrev system : System ℕ
system = record {
  clock_gettime = λ w. (some (seconds w, 0), w + 1);
  gettid = λ w. 31;
  dladdr = λ p w. some libil2cpp;
}

abbrev logger : Logger
logger = record { g_sequence = 4294967294; clock_once = false; g_clock_origin_ms = 0 }

abbrev calls : List (Call ℕ)
calls =
    record { before = λ w. w + 5; priority = info; return_address = 4101; text = codes "one" }
    ∷ record { before = λ w. w; priority = error; return_address = 4200; text = codes "two" }
    ∷ []

seconds_pass : (w : ℕ) → seconds w * 1000 ≤ seconds (w + 1) * 1000
seconds_pass w = ground arith

seconds_read : (w : ℕ) → (seconds w * 1000 % 2 ^ 64 + 0 / 1000000) % 2 ^ 64 ≡ seconds w * 1000
seconds_read w = ground arith

abbrev steady_of_system : Steady system
steady_of_system = record {
  ticks = λ w. seconds w * 1000;
  read = seconds_read;
  passes = seconds_pass;
}

place_of-Shows_example :
    (even_address 4101 % 2 ≡ 0)
    × (even_address 4101 ≤ 4101)
    × (4101 ≤ even_address 4101 + 1)
    × Shows system
        (even_address 4101)
        (some libil2cpp)
        (place_of system (even_address 4101) (some libil2cpp))
place_of-Shows_example = place_of-Shows system 4101 (some libil2cpp)

print_each-Numbered_example :
    Numbered system (4294967294 + 1) (print_each system calls 3 logger)
    × (length (print_each system calls 3 logger) ≡ length calls)
print_each-Numbered_example = print_each-Numbered system calls 3 logger 4294967294 refl

print_each-Ascending_example :
    Ascending system steady_of_system 0 (print_each system calls 3 logger)
print_each-Ascending_example =
    print_each-Ascending system steady_of_system calls 3 logger
      ((λ v. ground arith), ((λ v. ground arith), tt)) (λ e. ground arith)

-- The second line has the number 0 behind 2^32 - 1, and shows one second.
print_each_runs :
    print_each system calls 3 logger
    ≡ record {
      priority = info;
      sequence = 4294967295;
      elapsed = 1000;
      thread_id = 31;
      place = inside (codes "libil2cpp.so") 4;
      message = codes "one";
    }
      ∷ record {
        priority = error;
        sequence = 0;
        elapsed = 2000;
        thread_id = 31;
        place = inside (codes "libil2cpp.so") 104;
        message = codes "two";
      }
      ∷ []
unfolding print_each print start_clock place_of base_name
print_each_runs = refl
