-- ===== src/Jobs/Payload/Shape.antt =====
-- What `_payloads_ok` of server/jobs_queue.py is to accept, said by recursion on the payload: which
-- nodes are admissible at their depth, and how often it meets a container.
use openchess.Base.{ℕ, ◌+◌, Bool, true, false, ◌&&◌, List, [], ◌∷◌, leb, ◌==◌, if◌then◌else◌}
use openchess.Python.Values.{Value, text, list, dict, Items, nil, item, Entries, end, entry}
use openchess.Jobs.Payload.{max_depth, scalar, utf8_ok, Pending}

unfoldable mutual
  pub admissible : ℕ → Value → Bool
  admissible depth (list i xs) = leb depth max_depth && admissible_items (depth + 1) xs
  admissible depth (dict i d) = leb depth max_depth && admissible_entries (depth + 1) d
  admissible depth v = scalar v

  pub admissible_items : ℕ → Items → Bool
  admissible_items depth nil = true
  admissible_items depth (item v xs) = admissible depth v && admissible_items depth xs

  pub admissible_entries : ℕ → Entries → Bool
  admissible_entries depth end = true
  admissible_entries depth (entry (text k) v d) =
      utf8_ok k && (admissible depth v && admissible_entries depth d)
  admissible_entries depth (entry _ v d) = false

-- How often the container `a` is met within a value.
unfoldable mutual
  pub meets : ℕ → Value → ℕ
  meets a (list i xs) = (if a == i then 1 else 0) + meets_items a xs
  meets a (dict i d) = (if a == i then 1 else 0) + meets_entries a d
  meets a _ = 0

  pub meets_items : ℕ → Items → ℕ
  meets_items a nil = 0
  meets_items a (item v xs) = meets a v + meets_items a xs

  pub meets_entries : ℕ → Entries → ℕ
  meets_entries a end = 0
  meets_entries a (entry k v d) = meets a v + meets_entries a d

abbrev pub all_admissible : Pending → Bool
all_admissible [] = true
all_admissible ((v, depth) ∷ pending) = admissible depth v && all_admissible pending

abbrev pub total_meets : ℕ → Pending → ℕ
total_meets a [] = 0
total_meets a ((v, depth) ∷ pending) = meets a v + total_meets a pending

abbrev pub count : ℕ → List ℕ → ℕ
count a [] = 0
count a (i ∷ is) = (if a == i then 1 else 0) + count a is
