-- ===== src/Prelude/Paths.antt =====
-- Which file a path names.
pub mod Laws
use Prim.Native.String.{String, ◌++◌ as ◌<>◌}
use mathlib.Core.Bool.{◌||◌}
use mathlib.Core.List.{List, [], ◌∷◌}
use text.Mathlib.Text.{◌==◌}
use o2_ims_worker.Prelude.Tests.{if◌then◌else◌}
use o2_ims_worker.Prelude.Text.{split_on}

-- One part of a path, as the operating system follows it where there are no symbolic links. The
-- stack holds the directories down from the working directory, the last one first.
unfoldable pub enter : List String → String → List String
enter stack part =
    if part == "" || part == "."
    then stack
    else if part == ".."
    then (elim stack [
      | [] ↦ ".." ∷ []
      | top ∷ below ↦ if top == ".." then ".." ∷ top ∷ below else below
    ])
    else part ∷ stack

unfoldable pub enter_all : List String → List String → List String
unfolding enter
enter_all stack [] = stack
enter_all stack (part ∷ parts) = enter_all (enter stack part) parts

-- The place that a relative path names, the last part first.
unfoldable pub resolve : String → List String
unfolding enter_all
resolve path = enter_all [] (split_on b'/' path)

-- The name under which the file system model keeps a file.
abbrev pub join_onto : String → List String → String
join_onto tail [] = tail
join_onto tail (part ∷ stack) = join_onto (part <> "/" <> tail) stack

abbrev pub file_name : List String → String
file_name [] = "."
file_name (part ∷ stack) = join_onto part stack

-- The file that the operating system opens for a path.
abbrev pub file_at : String → String
file_at path = file_name (resolve path)
