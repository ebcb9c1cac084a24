-- ===== src/Paths.antt =====
-- The functions of Go's packages path and path/filepath (on Unix) that the service calls.
pub mod Laws
use frego_finance.Prelude.{
  Bool, true, false, ◌||◌, List, [], ◌∷◌, ◌++◌, reverse, Text, ◌==◌, nat_eq, text_eq, if◌then◌else◌,
}
use frego_finance.Strings.{push_first, starts_with, trim_right}

abbrev pub slash : Text
slash = b'/' ∷ []

abbrev pub dot : Text
dot = b'.' ∷ []

abbrev pub dot_dot : Text
dot_dot = b'.' ∷ b'.' ∷ []

-- The elements between the slashes: there is always at least one, which may be empty.
unfoldable pub split_slash : Text → List Text
split_slash [] = [] ∷ []
split_slash (c ∷ s) = if c == b'/' then [] ∷ split_slash s else push_first c (split_slash s)

unfoldable pub join_slash : List Text → Text
join_slash [] = []
join_slash (p ∷ []) = p
join_slash (p ∷ q ∷ ps) = p ++ (b'/' ∷ join_slash (q ∷ ps))

-- A ".." element: it drops the element before it, or stays where there is none to drop.
unfoldable pub pop : Bool → List Text → List Text
pop true [] = []
pop false [] = dot_dot ∷ []
pop rooted (top ∷ rest) = if top == dot_dot then dot_dot ∷ top ∷ rest else rest

-- One element of path.Clean; the stack has its top at the head.
unfoldable pub clean_step : Bool → List Text → Text → List Text
unfolding pop
clean_step rooted stack part =
    if part == [] || part == dot
    then stack
    else if part == dot_dot
    then pop rooted stack
    else part ∷ stack

unfoldable pub clean_parts : Bool → List Text → List Text → List Text
clean_parts rooted stack [] = reverse stack
clean_parts rooted stack (part ∷ parts) = clean_parts rooted (clean_step rooted stack part) parts

unfoldable pub or_dot : Text → Text
or_dot [] = dot
or_dot (c ∷ s) = c ∷ s

-- path.Clean
unfoldable pub clean : Text → Text
unfolding split_slash join_slash clean_step clean_parts or_dot starts_with
clean s =
    let rooted = starts_with s slash in
    let body = join_slash (clean_parts rooted [] (split_slash s)) in
    or_dot (if rooted then slash ++ body else body)

unfoldable pub not_empty : List Text → List Text
not_empty [] = []
not_empty ([] ∷ ps) = not_empty ps
not_empty ((c ∷ p) ∷ ps) = (c ∷ p) ∷ not_empty ps

unfoldable pub clean_joined : List Text → Text
unfolding clean join_slash
clean_joined [] = []
clean_joined (p ∷ ps) = clean (join_slash (p ∷ ps))

-- path.Join: empty elements are ignored.
unfoldable pub path_join : List Text → Text
unfolding clean_joined not_empty
path_join parts = clean_joined (not_empty parts)

unfoldable pub last_part : List Text → Text
last_part [] = []
last_part (p ∷ []) = p
last_part (p ∷ q ∷ ps) = last_part (q ∷ ps)

unfoldable pub or_slash : Text → Text
or_slash [] = slash
or_slash (c ∷ s) = c ∷ s

-- filepath.Base
unfoldable pub base : Text → Text
unfolding last_part split_slash or_slash trim_right
base [] = dot
base (c ∷ s) = or_slash (last_part (split_slash (trim_right (λ d. d == b'/') (c ∷ s))))
