-- ===== src/Std/FilePath.antt =====
-- `std::path::Path::components` on the WASI targets, which follow the Unix rules: `/` separates,
-- empty and inner `.` components are dropped, a leading `.` is kept, and there is no prefix.
use leptos_wasi.Prelude.{Bool, true, false, List, [], ◌∷◌, Option, none, some, ◌==◌, if◌then◌else◌}
use leptos_wasi.Std.Str.{Bytes, bytes_eq, split, rsplit_once}

pub data Component : Type 0 where
  prefix : Bytes → Component
  root_dir cur_dir parent_dir : Component
  normal : Bytes → Component

abbrev pub dot : Bytes
dot = b'.' ∷ []

abbrev pub dot_dot : Bytes
dot_dot = b'.' ∷ b'.' ∷ []

-- One component after the front of the path; `first` says that it is the front of a relative path.
unfoldable pub push_component : Bool → Bytes → List Component → List Component
push_component first [] rest = rest
push_component first (c ∷ cs) rest =
    if bytes_eq (c ∷ cs) dot
    then (if first then cur_dir ∷ rest else rest)
    else if bytes_eq (c ∷ cs) dot_dot
    then parent_dir ∷ rest
    else normal (c ∷ cs) ∷ rest

unfoldable pub body_components : Bool → List Bytes → List Component
body_components first [] = []
body_components first (p ∷ ps) = push_component first p (body_components false ps)

unfoldable pub components : Bytes → List Component
components [] = []
components (c ∷ cs) =
    if c == b'/'
    then root_dir ∷ body_components false (split b'/' cs)
    else body_components true (split b'/' (c ∷ cs))

abbrev normal_name : Component → Option Bytes
normal_name (prefix s) = none
normal_name root_dir = none
normal_name cur_dir = none
normal_name parent_dir = none
normal_name (normal name) = some name

abbrev last_name : List Component → Option Bytes
last_name [] = none
last_name (c ∷ []) = normal_name c
last_name (c ∷ d ∷ cs) = last_name (d ∷ cs)

-- `Path::file_name`.
unfoldable pub file_name : Bytes → Option Bytes
file_name path = last_name (components path)

-- What follows the last dot of a name, unless nothing stands before it.
abbrev extension_of_name : Option Bytes → Option Bytes
extension_of_name none = none
extension_of_name (some name) = elim (rsplit_once b'.' name) [
  | none ↦ none
  | some ([], after) ↦ none
  | some (b ∷ before, after) ↦ some after
]

-- `Path::extension`.
unfoldable pub extension : Bytes → Option Bytes
extension path = extension_of_name (file_name path)
