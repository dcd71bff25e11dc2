-- ===== src/Std/Codes.antt =====
-- The bytes of an ASCII literal.
use Prim.Native.Char.{code}
use Prim.Native.String.{String}
use leptos_wasi.Prelude.{[], ◌∷◌}
use leptos_wasi.Std.Str.{Bytes}

abbrev pub codes : String → Bytes
codes String.[] = []
codes (String.◌∷◌ c s) = code c ∷ codes s
