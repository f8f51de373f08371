-- ===== src/Jobs/Restart/Run.antt =====
-- `restart` of server/jobs_restart.py.
use openchess.Base.{◌>>=◌, ok, Result, or_else, codes, Text, ◌++◌, List, ◌∷◌, true}
use openchess.Python.Values.{Value}
use openchess.Python.Dumps.{dumps}
use openchess.Jobs.Queue.{State}
use openchess.Jobs.Queue.Engine.{state_id_for}
use openchess.Jobs.Restart.{
  Failure, malformed_restart_request, corrupt_queue, Request, Receipt, request_ok, state_ok,
  release_all, restarted, encode_receipt,
}

-- `hexdigest` stands for SHA-256 over the UTF-8 bytes of a text, in hexadecimal.
module _ (hexdigest : Text → Text) where
  -- `_restart_id`
  restart_id : Value → Text
  restart_id body = codes "rst1:" ++ hexdigest (codes "rst1" ++ (0 ∷ dumps true body))

  unfoldable pub make_receipt : Request → State → State → List Text → Receipt
  unfolding restart_id
  make_receipt req prior work released = record {
    worker = req.worker;
    restarted_at = req.now;
    released = released;
    prior_state_id = state_id_for hexdigest prior;
    state_id = state_id_for hexdigest work;
    restart_id = restart_id (
        encode_receipt req.worker req.now released (state_id_for hexdigest prior)
          (state_id_for hexdigest work));
  }

  -- `restart`: the committed state and the receipt; on an error nothing is committed.
  unfoldable pub restart : Value → Value → Result Failure (State × Receipt)
  unfolding make_receipt
  restart state request = do
    req ← or_else malformed_restart_request (request_ok request)
    s ← or_else corrupt_queue (state_ok state)
    let work = restarted req.worker req.now s
    ok (work, make_receipt req s work (release_all req.worker req.now s.jobs).1)
