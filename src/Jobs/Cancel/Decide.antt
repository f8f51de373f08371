-- ===== src/Jobs/Cancel/Decide.antt =====
-- `cancel` of server/jobs_cancel.py.
use openchess.Base.{◌>>=◌, ◌>>◌, ok, Result, or_else, require, codes, Text}
use openchess.Python.Values.{Value}
use openchess.Jobs.Queue.{Job}
use openchess.Jobs.Stored.{single_job, digest_of}
use openchess.Jobs.Cancel.{
  Failure, malformed_cancel_request, corrupt_job, job_not_cancellable, Request, Record, request_ok,
  cancellable, encode_record,
}

-- `hexdigest` stands for SHA-256 over the UTF-8 bytes of a text, in hexadecimal.
module _ (hexdigest : Text → Text) where
  unfoldable pub make_record : Request → Job → Record
  make_record r job =
      let digest = digest_of hexdigest (codes "pd1") job.payload in
      record {
        job_id = job.job_id;
        seq = job.seq;
        priority = job.priority;
        payload_digest = digest;
        status_before = job.status;
        attempts = job.attempts;
        requester = r.requester;
        cancelled_at = r.now;
        decision_id =
            digest_of hexdigest (codes "cd1") (encode_record job digest r.requester r.now);
      }

  -- `cancel`
  unfoldable pub cancel : Value → Result Failure Record
  unfolding make_record
  cancel request = do
    r ← or_else malformed_cancel_request (request_ok request)
    job ← or_else corrupt_job (single_job r.job)
    require (cancellable job.status) job_not_cancellable
    ok (make_record r job)
