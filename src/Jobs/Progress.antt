-- ===== src/Jobs/Progress.antt =====
-- Progress reports of jobs (server/jobs_progress.py): requests, records and their checks.
pub mod Report
pub mod Percent
pub mod Readable
pub mod Follows
use openchess.Base.{
  ℕ, ◌^◌, ◌-◌, ◌*◌, ◌/◌, Bool, true, false, ◌&&◌, Option, none, some, [], ◌∷◌, ◌++◌, leb, ltb, ◌==◌,
  Text, codes, text_eq,
}
use openchess.Base.Maybe.{◌>>=◌, ◌>>◌, guard}
use openchess.Python.Values.{
  Value, null, text, dict, integer, pos, entry, end, get, int_in, text_matching,
}
use openchess.Python.Grammar.{Grammar, is_hex, fullmatch, job_id_grammar, worker_grammar}
use openchess.Python.Dumps.{dumps}
use openchess.Jobs.Queue.Check.{keys_are}
use openchess.Jobs.Queue.Engine.{text_or_null}

pub data Failure : Type 0 where
  malformed_progress_request corrupt_previous_record progress_conflict : Failure

-- The checked copy of a request, its previous record still unchecked.
pub record Request : Type 0 where
  pub job_id : Text
  pub worker : Text
  pub total : ℕ
  pub done : ℕ
  pub now : ℕ
  pub previous : Value

-- data/contracts/progress.yaml, record.fields, less the fixed `op`
pub record Record : Type 0 where
  pub job_id : Text
  pub worker : Text
  pub done : ℕ
  pub total : ℕ
  pub percent_bp : ℕ
  pub reported_at : ℕ
  pub previous_id : Option Text
  pub progress_id : Text

abbrev pub max_total : ℕ
max_total = 2 ^ 53 - 1

abbrev pub max_now : ℕ
max_now = 2 ^ 53 - 1

-- `BP`
abbrev pub bp : ℕ
bp = 10000

-- `done * BP // total`
unfoldable pub percent : ℕ → ℕ → ℕ
percent done total = done * bp / total

-- data/contracts/progress.yaml, identifiers.progress_id
abbrev pub progress_id_grammar : Grammar
progress_id_grammar = record { prefix = codes "pg1:"; class = is_hex; fewest = 64; most = 64 }

abbrev pub dict_or_null : Value → Bool
dict_or_null (dict i d) = true
dict_or_null null = true
dict_or_null _ = false

-- `_request_ok`
unfoldable pub request_ok : Value → Option Request
request_ok (dict i d) = do
  keys_are d (
      codes "op"
      ∷ codes "job_id"
      ∷ codes "worker"
      ∷ codes "done"
      ∷ codes "total"
      ∷ codes "now"
      ∷ codes "previous"
      ∷ [])
  get (codes "op") d >>= text_matching (text_eq (codes "report"))
  jid ← get (codes "job_id") d >>= text_matching (fullmatch job_id_grammar)
  worker ← get (codes "worker") d >>= text_matching (fullmatch worker_grammar)
  total ← get (codes "total") d >>= int_in 1 max_total
  done ← get (codes "done") d >>= int_in 0 total
  now ← get (codes "now") d >>= int_in 0 max_now
  previous ← get (codes "previous") d
  guard (dict_or_null previous)
  some (record {
    job_id = jid;
    worker = worker;
    total = total;
    done = done;
    now = now;
    previous = previous;
  })
request_ok _ = none

-- The record without its id, as the dict that is dumped.
unfoldable pub encode_body : Record → Value
encode_body r = dict 0 (
    entry (text (codes "op")) (text (codes "report")) (
      entry (text (codes "job_id")) (text r.job_id) (
        entry (text (codes "worker")) (text r.worker) (
          entry (text (codes "done")) (integer (pos r.done)) (
            entry (text (codes "total")) (integer (pos r.total)) (
              entry (text (codes "percent_bp")) (integer (pos r.percent_bp)) (
                entry (text (codes "reported_at")) (integer (pos r.reported_at))
                  (entry (text (codes "previous_id")) (text_or_null r.previous_id) end))))))))

-- The record, as the dict that `report` returns.
unfoldable pub encode_record : Record → Value
encode_record r = dict 0 (
    entry (text (codes "op")) (text (codes "report")) (
      entry (text (codes "job_id")) (text r.job_id) (
        entry (text (codes "worker")) (text r.worker) (
          entry (text (codes "done")) (integer (pos r.done)) (
            entry (text (codes "total")) (integer (pos r.total)) (
              entry (text (codes "percent_bp")) (integer (pos r.percent_bp)) (
                entry (text (codes "reported_at")) (integer (pos r.reported_at)) (
                  entry (text (codes "previous_id")) (text_or_null r.previous_id)
                    (entry (text (codes "progress_id")) (text r.progress_id) end)))))))))

-- `prev["previous_id"] is None or _grammar(prev["previous_id"], _PROGRESS_RE)`
unfoldable pub read_id : Value → Option (Option Text)
read_id null = some none
read_id v = do t ← text_matching (fullmatch progress_id_grammar) v; some (some t)

-- The fields of a previous record, each within its bounds.
unfoldable pub read_record : Value → Option Record
read_record (dict i d) = do
  keys_are d (
      codes "op"
      ∷ codes "job_id"
      ∷ codes "worker"
      ∷ codes "done"
      ∷ codes "total"
      ∷ codes "percent_bp"
      ∷ codes "reported_at"
      ∷ codes "previous_id"
      ∷ codes "progress_id"
      ∷ [])
  get (codes "op") d >>= text_matching (text_eq (codes "report"))
  jid ← get (codes "job_id") d >>= text_matching (fullmatch job_id_grammar)
  worker ← get (codes "worker") d >>= text_matching (fullmatch worker_grammar)
  total ← get (codes "total") d >>= int_in 1 max_total
  done ← get (codes "done") d >>= int_in 0 total
  reported_at ← get (codes "reported_at") d >>= int_in 0 max_now
  percent_bp ← get (codes "percent_bp") d >>= int_in (percent done total) (percent done total)
  previous_id ← get (codes "previous_id") d >>= read_id
  progress_id ← get (codes "progress_id") d >>= text_matching (fullmatch progress_id_grammar)
  some (record {
    job_id = jid;
    worker = worker;
    done = done;
    total = total;
    percent_bp = percent_bp;
    reported_at = reported_at;
    previous_id = previous_id;
    progress_id = progress_id;
  })
read_record _ = none

-- `_chain_ok`
unfoldable pub chain_ok : Request → Record → Bool
chain_ok r prev =
    text_eq r.job_id prev.job_id
    && text_eq r.worker prev.worker
    && (r.total == prev.total)
    && ltb prev.done prev.total
    && leb prev.done r.done
    && leb prev.reported_at r.now

-- `hexdigest` stands for SHA-256 over the UTF-8 bytes of a text, in hexadecimal.
module _ (hexdigest : Text → Text) where
  -- `_progress_id`
  unfoldable pub progress_id : Record → Text
  progress_id r = codes "pg1:" ++ hexdigest (codes "pg1" ++ (0 ∷ dumps true (encode_body r)))

  -- `_previous_ok`, with the record read
  unfoldable pub own_record : Value → Option Record
  own_record v = do r ← read_record v; guard (text_eq r.progress_id (progress_id r)); some r

  -- The previous record: none for a null one; a request has no other than a dict or null.
  unfoldable pub read_previous : Value → Option (Option Record)
  read_previous null = some none
  read_previous (dict i d) = do r ← own_record (dict i d); some (some r)
  read_previous _ = none
