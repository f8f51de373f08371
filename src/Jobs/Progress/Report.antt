-- ===== src/Jobs/Progress/Report.antt =====
-- `report` of server/jobs_progress.py.
use openchess.Base.{
  ◌>>=◌, ◌>>◌, ok, none, some, Option, Text, Bool, true, Result, or_else, require, [],
}
use openchess.Python.Values.{Value}
use openchess.Jobs.Progress.{
  Record, Request, Failure, malformed_progress_request, corrupt_previous_record, progress_conflict,
  request_ok, read_previous, chain_ok, percent, progress_id,
}

abbrev pub chain_all_ok : Request → Option Record → Bool
chain_all_ok r none = true
chain_all_ok r (some prev) = chain_ok r prev

abbrev pub id_of : Option Record → Option Text
id_of none = none
id_of (some prev) = some prev.progress_id

module _ (hexdigest : Text → Text) where
  -- The record of a request, with its id.
  unfoldable pub make_record : Request → Option Record → Record
  make_record r previous =
      let body : Record = record {
        job_id = r.job_id;
        worker = r.worker;
        done = r.done;
        total = r.total;
        percent_bp = percent r.done r.total;
        reported_at = r.now;
        previous_id = id_of previous;
        progress_id = [];
      } in
      record body { progress_id = progress_id hexdigest body }

  -- `report`
  unfoldable pub report : Value → Result Failure Record
  report request = do
    r ← or_else malformed_progress_request (request_ok request)
    previous ← or_else corrupt_previous_record (read_previous hexdigest r.previous)
    require (chain_all_ok r previous) progress_conflict
    ok (make_record r previous)
