-- ===== src/Checks/Symbolize.antt =====
-- A line of the log and the sample of tools/test_symbolize_log.py, for the symboliser.
use old_pixel_gun_3d_online.Base.{
  ℕ, ◌+◌, ◌≡◌, refl, false, some, none, List, [], ◌∷◌, ◌++◌, Bytes, codes, arith,
}
use old_pixel_gun_3d_online.State.{warn}
use old_pixel_gun_3d_online.Text.Digits.{spell, int16}
use old_pixel_gun_3d_online.Log.{System, Logger, DlInfo, start_clock, place_of, base_name, print}
use old_pixel_gun_3d_online.Log.Spelling.{spell_line}
use old_pixel_gun_3d_online.Symbolize.{Unicode, callsite, annotated, symbolize_line}
use old_pixel_gun_3d_online.Symbolize.Callsite.{print-callsite}
use old_pixel_gun_3d_online.Symbolize.Once.{symbolize_line-twice}
use old_pixel_gun_3d_online.Symbolize.Index.{Method, resolve_rva}
use old_pixel_gun_3d_online.Symbolize.Index.Nearest.{Nearest, resolve_rva-Nearest}

abbrev unicode : Unicode
unicode = record { is_letter = λ c. false; is_blank = λ c. false }

-- What SAMPLE_DUMP lists.
abbrev methods : List Method
methods =
    record { rva = 0xc78060; qualified_name = codes "PhotonNetwork.Disconnect" }
    ∷ record { rva = 0xc8002c; qualified_name = codes "PhotonNetwork.ConnectUsingSettings" }
    ∷ record { rva = 0x118f728; qualified_name = codes "GameConnect.Disconnect" }
    ∷ []

nearest_method : resolve_rva methods 0x118f750 0x1000 ≡ some (codes "GameConnect.Disconnect+0x28")
unfolding resolve_rva spell
nearest_method = refl

inner_method :
    resolve_rva methods 0xc80040 0x1000 ≡ some (codes "PhotonNetwork.ConnectUsingSettings+0x14")
unfolding resolve_rva spell
inner_method = refl

maximum_offset : resolve_rva methods 0x118f750 0x10 ≡ none
unfolding resolve_rva spell
maximum_offset = refl

resolve_rva-Nearest_example :
    Nearest methods 0x118f750 0x1000 (resolve_rva methods 0x118f750 0x1000)
resolve_rva-Nearest_example = resolve_rva-Nearest methods 0x118f750 0x1000

abbrev call_line : Bytes
call_line = codes "[#000001 +000001ms tid=7 pc=libil2cpp.so+0x118f750] disconnect\n"

annotated_call :
    symbolize_line unicode methods 0x1000 call_line
    ≡ codes
        "[#000001 +000001ms tid=7 pc=libil2cpp.so+0x118f750] disconnect [managed=GameConnect.Disconnect+0x28]\n"
unfolding symbolize_line callsite annotated resolve_rva spell int16
annotated_call = refl

other_library :
    callsite unicode (codes "[#000002 +000002ms tid=7 pc=libopg3d.so+0x1234] helper\n") ≡ none
unfolding callsite int16
other_library = refl

symbolize_line-twice_example :
    symbolize_line unicode methods 0x1000 (symbolize_line unicode methods 0x1000 call_line)
    ≡ symbolize_line unicode methods 0x1000 call_line
symbolize_line-twice_example =
    symbolize_line-twice unicode methods 0x1000 call_line
      (ground arith, (ground arith, (ground arith, tt)))

abbrev loaded : DlInfo
loaded = record { dli_fname = some (codes "/data/lib/libil2cpp.so"); dli_fbase = 0xb0000000 }

abbrev system : System ℕ
system = record {
  clock_gettime = λ w. (some (w, 0), w + 1);
  gettid = λ w. 31;
  dladdr = λ p w. some loaded;
}

abbrev logger : Logger
logger = record { g_sequence = 0; clock_once = false; g_clock_origin_ms = 0 }

-- What logcat puts in front of the line.
abbrev logcat : Bytes
logcat = codes "11-25 18:02:02.000   31   31 W OPG3D   : "

shown_line :
    spell_line (print system warn 0xb118f751 (codes "net: Disconnect") 3 logger).0
    ≡ codes "[#000001 +001000ms tid=31 pc=libil2cpp.so+0x118f750] net: Disconnect"
unfolding spell_line print start_clock place_of base_name spell
shown_line = refl

print-callsite_example :
    callsite unicode
      (logcat ++ spell_line (print system warn 0xb118f751 (codes "net: Disconnect") 3 logger).0)
    ≡ some 0x118f750
print-callsite_example =
    print-callsite system unicode (λ text. text) (λ xs ys h. refl) warn 0xb118f751
      (codes "net: Disconnect") 3 logger logcat (codes "/data/lib") loaded (omega arith) refl refl
      refl (omega arith) (ground arith)

-- With a bracket in a name, an annotation is not found again, and a second run repeats it.
abbrev bracketed : List Method
bracketed = record { rva = 0x10; qualified_name = codes "A<B[]>.M" } ∷ []

repeated_annotation :
    symbolize_line unicode bracketed 16
      (symbolize_line unicode bracketed 16 (codes "pc=libil2cpp.so+0x18 x\n"))
    ≡ codes "pc=libil2cpp.so+0x18 x [managed=A<B[]>.M+0x8] [managed=A<B[]>.M+0x8]\n"
unfolding symbolize_line callsite annotated resolve_rva spell int16
repeated_annotation = refl
