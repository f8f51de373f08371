-- ===== src/Jobs/Progress/Readable.antt =====
-- What the checks promise, and records that come back from their dicts, in server/jobs_progress.py.
use openchess.Jobs.Queue.Engine.{text_or_null}
use openchess.Base.{refl, true, ◌≡◌, ◌≤◌, codes, text_eq, Option, Text, some, text_in, none, arith}
use openchess.Base.Maybe.{◌>>=◌, guard, OnRead, OnRead-bind, OnRead-at}
use openchess.Python.Values.{
  Value, dict, get, int_in, text_matching, read-int_in, read-text_matching, null,
  text_matching-text, text_keys, text_matching-matches, int_in-pos,
}
use openchess.Python.Grammar.{fullmatch, job_id_grammar, worker_grammar}
use openchess.Jobs.Queue.Check.{keys_are}
use openchess.Jobs.Progress.{
  dict_or_null, Request, max_total, max_now, request_ok, Record, read_id, read_record, percent,
  text, encode_record, progress_id_grammar,
}

-- What the check of a request promises.
pub record InRange (r : Request) : Type 0 where
  pub job_grammar : fullmatch job_id_grammar r.job_id ≡ true
  pub worker_matches : fullmatch worker_grammar r.worker ≡ true
  pub some_total : 1 ≤ r.total
  pub total_bound : r.total ≤ max_total
  pub done_bound : r.done ≤ r.total
  pub clock_bound : r.now ≤ max_now

pub request_ok-InRange : (v : Value) → OnRead InRange (request_ok v)
unfolding request_ok
request_ok-InRange (dict i d) = OnRead-bind InRange (keys_are d _) _ λ _ _.
    OnRead-bind InRange (get (codes "op") d >>= text_matching (text_eq (codes "report"))) _ λ _ _.
      OnRead-bind InRange (get (codes "job_id") d >>= text_matching (fullmatch job_id_grammar)) _
        λ jid e_id.
          OnRead-bind InRange (get (codes "worker") d >>= text_matching (fullmatch worker_grammar))
            _
            λ worker e_worker.
              OnRead-bind InRange (get (codes "total") d >>= int_in 1 max_total) _ λ total e_total.
                OnRead-bind InRange (get (codes "done") d >>= int_in 0 total) _ λ done e_done.
                  OnRead-bind InRange (get (codes "now") d >>= int_in 0 max_now) _ λ now e_now.
                    OnRead-bind InRange (get (codes "previous") d) _ λ previous e_previous.
                      OnRead-bind InRange (guard (dict_or_null previous)) _ λ _ _. record {
                        job_grammar = read-text_matching _ _ e_id;
                        worker_matches = read-text_matching _ _ e_worker;
                        some_total = (read-int_in 1 max_total _ e_total).0;
                        total_bound = (read-int_in 1 max_total _ e_total).1;
                        done_bound = (read-int_in 0 total _ e_done).1;
                        clock_bound = (read-int_in 0 max_now _ e_now).1;
                      }
request_ok-InRange _ = tt

abbrev pub IdMatches : Option Text → Type 0
IdMatches none = Unit
IdMatches (some t) = fullmatch progress_id_grammar t ≡ true

-- A record that `_previous_ok` has the fields of, whatever its id.
pub record Readable (c : Record) : Type 0 where
  pub job_grammar : fullmatch job_id_grammar c.job_id ≡ true
  pub worker_matches : fullmatch worker_grammar c.worker ≡ true
  pub some_total : 1 ≤ c.total
  pub total_bound : c.total ≤ max_total
  pub done_bound : c.done ≤ c.total
  pub clock_bound : c.reported_at ≤ max_now
  pub exact : c.percent_bp ≡ percent c.done c.total
  pub previous_matches : IdMatches c.previous_id
  pub id_matches : fullmatch progress_id_grammar c.progress_id ≡ true

read_id-text : (t : Text) → OnRead IdMatches (read_id (text t))
unfolding read_id
read_id-text t =
    OnRead-bind IdMatches (text_matching (fullmatch progress_id_grammar) (text t)) _
      λ s e. OnRead-at _ _ (text_matching-matches (fullmatch progress_id_grammar) (text t)) e

read_id-IdMatches : (v : Value) → OnRead IdMatches (read_id v)
unfolding read_id text_matching
read_id-IdMatches null = tt
read_id-IdMatches (text t) = read_id-text t
read_id-IdMatches _ = tt

read_previous_id : (o : Option Value) {i : Option Text} → (o >>= read_id) ≡ some i → IdMatches i
read_previous_id none h = cc
read_previous_id (some v) h = OnRead-at IdMatches _ (read_id-IdMatches v) h

pub read_record-Readable : (v : Value) → OnRead Readable (read_record v)
unfolding read_record
read_record-Readable (dict i d) = OnRead-bind Readable (keys_are d _) _ λ _ _.
    OnRead-bind Readable (get (codes "op") d >>= text_matching (text_eq (codes "report"))) _ λ _ _.
      OnRead-bind Readable (get (codes "job_id") d >>= text_matching (fullmatch job_id_grammar)) _
        λ jid e_id.
          OnRead-bind Readable (get (codes "worker") d >>= text_matching (fullmatch worker_grammar))
            _
            λ worker e_worker.
              OnRead-bind Readable (get (codes "total") d >>= int_in 1 max_total) _ λ total e_total.
                OnRead-bind Readable (get (codes "done") d >>= int_in 0 total) _ λ done e_done.
                  OnRead-bind Readable (get (codes "reported_at") d >>= int_in 0 max_now) _
                    λ at e_at.
                      OnRead-bind Readable
                        (get (codes "percent_bp") d
                          >>= int_in (percent done total) (percent done total))
                        _
                        λ bp e_bp.
                          OnRead-bind Readable (get (codes "previous_id") d >>= read_id) _
                            λ before e_before.
                              OnRead-bind Readable
                                (get (codes "progress_id") d
                                  >>= text_matching (fullmatch progress_id_grammar))
                                _
                                λ own e_own. record {
                                  job_grammar = read-text_matching _ _ e_id;
                                  worker_matches = read-text_matching _ _ e_worker;
                                  some_total = (read-int_in 1 max_total _ e_total).0;
                                  total_bound = (read-int_in 1 max_total _ e_total).1;
                                  done_bound = (read-int_in 0 total _ e_done).1;
                                  clock_bound = (read-int_in 0 max_now _ e_at).1;
                                  exact = omega (
                                    arith,
                                    read-int_in (percent done total) (percent done total) _ e_bp,
                                  );
                                  previous_matches = read_previous_id _ e_before;
                                  id_matches = read-text_matching _ _ e_own;
                                }
read_record-Readable _ = tt

read_id-text_or_null : (o : Option Text) → IdMatches o → read_id (text_or_null o) ≡ some o
unfolding read_id
read_id-text_or_null none h = refl
read_id-text_or_null (some t) h = rw (text_matching-text (fullmatch progress_id_grammar) t h) refl

-- A record comes back from its dict.
pub read_record-encode_record : (c : Record) → Readable c → read_record (encode_record c) ≡ some c
unfolding read_record encode_record text_matching get text_eq text_in text_keys
read_record-encode_record c v =
    rw
      (
        text_matching-text (fullmatch job_id_grammar) c.job_id v.job_grammar,
        text_matching-text (fullmatch worker_grammar) c.worker v.worker_matches,
        int_in-pos 1 max_total c.total v.some_total v.total_bound,
        int_in-pos 0 c.total c.done (omega arith) v.done_bound,
        int_in-pos 0 max_now c.reported_at (omega arith) v.clock_bound,
        int_in-pos (percent c.done c.total) (percent c.done c.total) c.percent_bp
            (omega (arith, v.exact)) (omega (arith, v.exact)),
        read_id-text_or_null c.previous_id v.previous_matches,
        text_matching-text (fullmatch progress_id_grammar) c.progress_id v.id_matches,
      )
      refl
