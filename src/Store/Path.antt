-- ===== src/Store/Path.antt =====
-- Paths and identifiers of files: the parts of Go's `path/filepath` and `strings` that the file
-- persistence calls, and its check of an identifier.
use Prim.Native.Char.{Char, code}
use Prim.Native.String
use Prim.Native.String.{[], ◌∷◌}
use text.Mathlib.Text.{find?, starts_with}
use operion.Base.{
  String, Bool, true, false, ◌||◌, ◌==◌, eqb, if◌then◌else◌, List, Option, none, some,
}
use operion.Models.Event.{Error, invalid_id}

abbrev is_slash : Char → Bool
is_slash c = eqb (code c) b'/'

abbrev push : Char → List String → List String
push c List.[] = List.◌∷◌ (c ∷ []) List.[]
push c (List.◌∷◌ s ss) = List.◌∷◌ (c ∷ s) ss

-- The elements between the slashes.
unfoldable pub elements : String → List String
elements [] = List.◌∷◌ "" List.[]
elements (c ∷ s) = let rest = elements s in if is_slash c then List.◌∷◌ "" rest else push c rest

-- `..` takes the last element back; where there is none it stays, unless the path is rooted.
abbrev up : Bool → List String → List String
up rooted List.[] = if rooted then List.[] else List.◌∷◌ ".." List.[]
up rooted (List.◌∷◌ s ss) = if s == ".." then List.◌∷◌ ".." (List.◌∷◌ s ss) else ss

-- The loop of `Clean` over the elements; the last element kept stands first.
unfoldable pub clean_from : Bool → List String → List String → List String
clean_from rooted out List.[] = out
clean_from rooted out (List.◌∷◌ s ss) =
    clean_from rooted
      (if s == "" || s == "." then out else if s == ".." then up rooted out else List.◌∷◌ s out) ss

unfoldable pub join_back : List String → String → String
join_back List.[] path = path
join_back (List.◌∷◌ s ss) path =
    join_back ss (if path == "" then s else String.◌++◌ s (String.◌++◌ "/" path))

-- `filepath.Clean`.
unfoldable pub clean : String → String
unfolding elements clean_from join_back
clean path =
    let rooted = starts_with path "/" in
    let out = join_back (clean_from rooted List.[] (elements path)) "" in
    if rooted then String.◌++◌ "/" out else if out == "" then "." else out

-- `filepath.Join` of a folder and a name.
unfoldable pub join : String → String → String
unfolding clean
join folder name =
    if folder == "" then clean name else clean (String.◌++◌ folder (String.◌++◌ "/" name))

-- `strings.Contains`.
abbrev is_found {ℓ} : {A : Type ℓ} → Option A → Bool
is_found none = false
is_found (some _) = true

unfoldable pub contains : String → String → Bool
contains s part = is_found (find? s part)

-- `validateExecutionID` and `validateNodeExecutionID`; `none` is the result `nil`.
unfoldable pub validate_id : String → Option Error
unfolding contains
validate_id id =
    if id == ""
    then some invalid_id
    else if contains id ".." || contains id "/" || contains id "\\"
    then some invalid_id
    else none
