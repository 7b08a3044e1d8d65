-- ===== src/Instances/Names.antt =====
-- `_SAFE_NAME_RE` of instance_manager/src/instance_manager_service.py: the pattern
-- `^[a-zA-Z0-9][a-zA-Z0-9._-]*$`, matched by `re.match` at the start of a text. `$` also matches
-- before a newline that ends the text.
pub mod Laws
use vanpilot.Prelude.{ℕ, String, Bool, true, false, ◌&&◌, ◌||◌, List, [], ◌∷◌, leb, ◌==◌, nat_eq}
use vanpilot.Prelude.Text.{codes}

-- [a-zA-Z0-9]
abbrev pub is_alnum : ℕ → Bool
is_alnum c = (leb b'a' c && leb c b'z') || (leb b'A' c && leb c b'Z') || (leb b'0' c && leb c b'9')

-- [a-zA-Z0-9._-]
abbrev pub is_name_char : ℕ → Bool
is_name_char c = is_alnum c || c == b'.' || c == b'_' || c == b'-'

-- `$`: the end, or a newline at the end
abbrev pub at_dollar : List ℕ → Bool
at_dollar [] = true
at_dollar (c ∷ []) = c == 10
at_dollar _ = false

-- `[...]*$`: as many characters as the class takes; no character that it takes is a newline, so
-- giving one back never helps
unfoldable pub match_rest : List ℕ → Bool
match_rest [] = true
match_rest (c ∷ cs) = let rest = match_rest cs in (is_name_char c && rest) || at_dollar (c ∷ cs)

unfoldable pub match_name : List ℕ → Bool
unfolding match_rest
match_name [] = false
match_name (c ∷ cs) = is_alnum c && match_rest cs

-- `_SAFE_NAME_RE.match(name)` as a test
unfoldable pub is_safe_name : String → Bool
unfolding match_name
is_safe_name name = match_name (codes name)
