-- ===== src/Extauth/Matching.antt =====
-- The matching helpers of pkg/extauth: paths, endpoints, headers and scopes.
use kontxt.Base.{
  String, Bool, true, false, ◌&&◌, ◌||◌, none, some, List, [], ◌∷◌, ltb, ◌==◌, Eq_nat, Eq_string,
  length, all, contains, concat,
}
use kontxt.Base.Strings.{fields, split, trim, up_to, has_prefix, starts_with, ends_with, to_lower}
use kontxt.Base.Maps.{Map, lookup}

-- scopeContains
unfoldable pub scope_contains : String → String → Bool
scope_contains scope required = contains (fields scope) required

-- scopeIsBroader; the set of broader scopes is the list of their words.
unfoldable pub scope_is_broader : String → String → Bool
scope_is_broader broader narrower =
    all (λ s. contains (fields broader) s) (fields narrower)
    && ltb (length (fields narrower)) (length (fields broader))

-- matchPath
unfoldable pub match_path : String → String → Bool
match_path request_path pattern =
    let path = up_to b'?' request_path in path == pattern || has_prefix path (concat pattern "/")

-- The loop of `matchEndpointPath`, on parts of one length.
abbrev pub is_wildcard : String → Bool
is_wildcard part = starts_with part b'{' && ends_with part b'}'

unfoldable pub match_parts : List String → List String → Bool
match_parts [] [] = true
match_parts (r ∷ rs) (p ∷ ps) = (is_wildcard p || r == p) && match_parts rs ps
match_parts _ _ = false

-- matchEndpointPath
unfoldable pub match_endpoint_path : String → String → Bool
match_endpoint_path request_path pattern =
    let req_parts = split b'/' (trim b'/' (up_to b'?' request_path)) in
    let pat_parts = split b'/' (trim b'/' pattern) in
    length req_parts == length pat_parts && match_parts req_parts pat_parts

-- getHeader
unfoldable pub get_header : Map String String → String → String
get_header headers name = elim (lookup (to_lower name) headers) [
  | some v ↦ v
  | none ↦ elim (lookup name headers) [ some v ↦ v | none ↦ "" ]
]
