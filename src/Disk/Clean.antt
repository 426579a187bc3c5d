-- ===== src/Disk/Clean.antt =====
-- `filepath.Join`, `filepath.Clean` and `filepath.Dir` of Go's library, where the separator is `/`.
use pastelup.Base.{
  ◌==◌, Str, str, Bool, List, [], ◌∷◌, ◌++◌, false, if◌then◌else◌, str_eq, is_empty,
}
use pastelup.Masternode.Address.{split_on}

abbrev pub starts_with_slash : Str → Bool
starts_with_slash [] = false
starts_with_slash (c ∷ s) = c == b'/'

-- The elements of a path in reverse, without `.` and empty ones, and `..` resolved.
unfoldable pub push_element : Bool → List Str → Str → List Str
push_element rooted st e =
    let up : List Str = elim st [
      | [] ↦ if rooted then [] else str ".." ∷ []
      | t ∷ rest ↦ if str_eq t (str "..") then str ".." ∷ t ∷ rest else rest
    ] in
    if is_empty e
    then st
    else if str_eq e (str ".")
    then st
    else if str_eq e (str "..")
    then up
    else e ∷ st

unfoldable pub push_elements : Bool → List Str → List Str → List Str
unfolding push_element
push_elements rooted st [] = st
push_elements rooted st (e ∷ rest) = push_elements rooted (push_element rooted st e) rest

-- The elements from the reverse, with a slash between them.
unfoldable pub with_slashes : List Str → Str → Str
with_slashes [] tail = tail
with_slashes (e ∷ rest) tail = with_slashes rest (e ++ (if is_empty tail then [] else b'/' ∷ tail))

-- `filepath.Clean`
unfoldable pub clean : Str → Str
unfolding split_on push_elements with_slashes
clean path =
    let rooted = starts_with_slash path in
    let text = with_slashes (push_elements rooted [] (split_on b'/' path)) [] in
    if rooted then b'/' ∷ text else if is_empty text then str "." else text

-- `filepath.Join` of two elements
unfoldable pub clean_join : Str → Str → Str
unfolding clean
clean_join a b =
    if is_empty a then (if is_empty b then [] else clean b) else clean (a ++ (b'/' ∷ b))

-- The part of a path before its last slash, and `filepath.Dir`
unfoldable pub up_to_slash : Str → Str → Str → Str
up_to_slash seen token [] = seen
up_to_slash seen token (c ∷ s) =
    let further = up_to_slash (seen ++ (token ++ b'/' ∷ [])) [] s in
    let on = up_to_slash seen (token ++ c ∷ []) s in if c == b'/' then further else on

unfoldable pub dir_of : Str → Str
unfolding clean up_to_slash
dir_of path = clean (up_to_slash [] [] path)
