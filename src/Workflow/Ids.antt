-- ===== src/Workflow/Ids.antt =====
-- util.py: `validate_id`, a full match of `[A-Za-z0-9][A-Za-z0-9_.-]{0,127}`.
use Prim.Native.Char.{code}
use Prim.Native.String.{String}
use agent_workflow.Base.{ℕ, Bool, false, ◌&&◌, ◌||◌, List, [], ◌∷◌, length, leb, ◌==◌, all}

abbrev codes : String → List ℕ
codes String.[] = []
codes (String.◌∷◌ c s) = code c ∷ codes s

-- `[A-Za-z0-9]`
is_alnum : ℕ → Bool
is_alnum c = (leb b'A' c && leb c b'Z') || (leb b'a' c && leb c b'z') || (leb b'0' c && leb c b'9')

-- `[A-Za-z0-9_.-]`
is_id_char : ℕ → Bool
unfolding is_alnum
is_id_char c = is_alnum c || c == b'_' || c == b'.' || c == b'-'

safe_id : List ℕ → Bool
unfolding is_id_char
safe_id [] = false
safe_id (c ∷ cs) = is_alnum c && all is_id_char cs && leb (length cs) 127

unfoldable pub validate_id : String → Bool
unfolding safe_id
validate_id s = safe_id (codes s)
