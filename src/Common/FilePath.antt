-- ===== src/Common/FilePath.antt =====
-- Go's path/filepath on a system whose separator is `/`: Join of two elements, and Clean.
use Prim.Native.Char.{code}
use Prim.Native.String.{String, ◌++◌}
use mathlib.Core.Bool.{Bool, false, ◌||◌}
use mathlib.Core.List.{List, [], ◌∷◌}
use redkey_operator.Common.Tests.{eqb, ◌==◌, if◌then◌else◌}
use redkey_operator.Common.Text.{split, is_empty_string}
use redkey_operator.Common.Text.Laws.{join}

abbrev is_rooted : String → Bool
is_rooted String.[] = false
is_rooted (String.◌∷◌ c s) = eqb (code c) b'/'

-- The elements kept so far, the last one first, after the next element.
abbrev step_out : Bool → List String → List String
step_out rooted [] = if rooted then [] else ".." ∷ []
step_out rooted (top ∷ kept) = if top == ".." then ".." ∷ top ∷ kept else kept

abbrev step_into : Bool → List String → String → List String
step_into rooted kept part =
    if is_empty_string part || part == "."
    then kept
    else if part == ".."
    then step_out rooted kept
    else part ∷ kept

clean_parts : Bool → List String → List String → List String
clean_parts rooted kept [] = kept
clean_parts rooted kept (part ∷ parts) = clean_parts rooted (step_into rooted kept part) parts

-- The kept elements in their order.
abbrev unwind : List String → List String → List String
unwind [] parts = parts
unwind (top ∷ kept) parts = unwind kept (top ∷ parts)

-- `filepath.Clean`
clean : String → String
unfolding split clean_parts
clean path =
    let rest = join "/" (unwind (clean_parts (is_rooted path) [] (split path b'/')) []) in
    if is_rooted path then "/" ++ rest else if is_empty_string rest then "." else rest

-- `filepath.Join(dir, name)`: an empty element is left out.
unfoldable pub join_path : String → String → String
unfolding clean
join_path dir name =
    if is_empty_string dir
    then (if is_empty_string name then "" else clean name)
    else if is_empty_string name
    then clean dir
    else clean (dir ++ ("/" ++ name))
