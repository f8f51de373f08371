-- ===== src/Python/Grammar.antt =====
-- `re.fullmatch` for the identifier grammars of data/contracts: a literal prefix, then characters of
-- one class, their number within bounds.
use openchess.Base.{ℕ, Bool, true, false, ◌&&◌, ◌||◌, [], ◌∷◌, leb, ◌==◌, length, Text, codes}

pub record Grammar : Type 0 where
  pub prefix : Text
  pub class : ℕ → Bool
  pub fewest : ℕ
  pub most : ℕ

-- `[0-9a-f]`
unfoldable pub is_hex : ℕ → Bool
is_hex c = (leb b'0' c && leb c b'9') || (leb b'a' c && leb c b'f')

-- `[A-Za-z0-9._:-]`
unfoldable pub is_token : ℕ → Bool
is_token c =
    (leb b'A' c && leb c b'Z')
    || (leb b'a' c && leb c b'z')
    || (leb b'0' c && leb c b'9')
    || (c == b'.')
    || (c == b'_')
    || (c == b':')
    || (c == b'-')

all_of : (ℕ → Bool) → Text → Bool
all_of p [] = true
all_of p (c ∷ s) = p c && all_of p s

class_run : Grammar → Text → Bool
class_run g s = all_of g.class s && leb g.fewest (length s) && leb (length s) g.most

after_prefix : Grammar → Text → Text → Bool
after_prefix g [] s = class_run g s
after_prefix g (p ∷ ps) [] = false
after_prefix g (p ∷ ps) (c ∷ s) = (p == c) && after_prefix g ps s

unfoldable pub fullmatch : Grammar → Text → Bool
unfolding after_prefix class_run all_of
fullmatch g s = after_prefix g g.prefix s

-- data/contracts/queue.yaml, identifiers.job_id
abbrev pub job_id_grammar : Grammar
job_id_grammar = record { prefix = codes "job1:"; class = is_hex; fewest = 64; most = 64 }

-- data/contracts/queue.yaml, identifiers.dedupe_key
abbrev pub dedupe_key_grammar : Grammar
dedupe_key_grammar = record { prefix = []; class = is_token; fewest = 1; most = 128 }

-- data/contracts/queue.yaml, identifiers.worker
abbrev pub worker_grammar : Grammar
worker_grammar = record { prefix = []; class = is_token; fewest = 1; most = 64 }
