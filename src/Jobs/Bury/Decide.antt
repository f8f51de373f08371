-- ===== src/Jobs/Bury/Decide.antt =====
-- `bury` of server/jobs_dead_letter.py.
use openchess.Base.{◌>>=◌, ◌>>◌, ok, Result, or_else, require, codes, Text}
use openchess.Python.Values.{Value}
use openchess.Jobs.Queue.{Job}
use openchess.Jobs.Stored.{single_job, digest_of}
use openchess.Jobs.Bury.{
  Failure, malformed_bury_request, corrupt_job, job_not_dead, Request, Entry, request_ok, is_dead,
  encode_entry,
}

-- `hexdigest` stands for SHA-256 over the UTF-8 bytes of a text, in hexadecimal.
module _ (hexdigest : Text → Text) where
  unfoldable pub make_entry : Request → Job → Entry
  make_entry r job =
      let digest = digest_of hexdigest (codes "pd1") job.payload in
      record {
        job_id = job.job_id;
        seq = job.seq;
        priority = job.priority;
        payload_digest = digest;
        attempts = job.attempts;
        reason = r.reason;
        buried_at = r.now;
        entry_id = digest_of hexdigest (codes "dl1") (encode_entry job digest r.reason r.now);
      }

  -- `bury`
  unfoldable pub bury : Value → Result Failure Entry
  unfolding make_entry
  bury request = do
    r ← or_else malformed_bury_request (request_ok request)
    job ← or_else corrupt_job (single_job r.job)
    require (is_dead job.status) job_not_dead
    ok (make_entry r job)
