-- ===== src/Lib.antt =====
-- The verification library of openchess, a chess training program in Python: its background jobs
-- (server/jobs_*.py), its FEN codec (graph/fen.py), its en passant rule (graph/en_passant.py), its
-- three-way conflict detector (graph/conflict.py) and its rules of castling
-- (tools/castling_runtime.py) and of turns (tools/turn_runtime.py).
--
-- Every function of the source that receives caller objects is modelled on Python.Values.Value,
-- any object with its exact type. A check that only inspects an object in the source also reads
-- the checked fields into records here; these stand for the detached copies that the source makes
-- by json.loads(json.dumps(...)).
--
-- - Base, Base/*: numbers, results, reads, texts.
-- - Python, Python/*: values (Values), re.fullmatch of the identifier grammars (Grammar),
--   json.dumps with sorted keys (Dumps).
-- - Jobs/Payload, Jobs/Payload/*: _scalar and _payloads_ok of server/jobs_queue.py. The walk takes
--   as fuel the number of nodes of the payload; each round visits one node.
-- - Jobs/Queue, Jobs/Queue/*: server/jobs_queue.py. Check is _check_request, _job_ok and
--   _check_state; Engine is QueueEngine (enqueue_job, claim_job, settle, transition, apply).
-- - Jobs/Retry, Jobs/Retry/*: server/jobs_retry.py. Check is _request_ok and _policy_ok; Decide is
--   decide.
-- - Jobs/Limit, Jobs/Limit/*: server/jobs_limit.py. Check is _request_ok, _policy_ok and
--   _previous_ok, whose tests of form and bounds are read_record and whose tests of the decision
--   and the id are previous_ok; Admit is _chain_ok and admit.
-- - Jobs/Stored, Jobs/Stored/*: _payload_ok and _job_ok of server/jobs_restart.py,
--   server/jobs_cancel.py and server/jobs_dead_letter.py, which the three have in common.
-- - Jobs/Restart, Jobs/Restart/*: server/jobs_restart.py; Run is restart.
-- - Jobs/Cancel, Jobs/Cancel/*: server/jobs_cancel.py; Decide is cancel.
-- - Jobs/Bury, Jobs/Bury/*: server/jobs_dead_letter.py; Decide is bury.
-- - Jobs/Progress, Jobs/Progress/*: server/jobs_progress.py. The module itself is the checks
--   (_request_ok, _previous_ok, _chain_ok); Report is report.
-- - Jobs/Idempotency, Jobs/Idempotency/*: server/jobs_idempotency.py. Check is _validate_request,
--   _validate_ledger and _container_ids; Engine is _fingerprint and apply; Bound, Once, Again,
--   Ledger, Chain and Next are about calls after one another. The fingerprinter is given by what
--   it does at the one call that apply makes of it: a function from the op and the payload to the
--   object that it returns, or none if it raises. Each call of apply may have another one, so that
--   a fingerprinter may keep a state.
-- - Graph/Fen, Graph/Fen/*: graph/fen.py. Read is the grammar part of parse_fen, Rules its
--   position rules and the whole of it, Attack is _attack, Emit is emit_fen. A board is the list
--   of the entries of the dict. The walk of a slider has 8 rounds as fuel, since a board has no
--   longer line. The tables of data/contracts/fen.yaml are written out.
-- - Graph/EnPassant, Graph/EnPassant/*: graph/en_passant.py. The module itself is the tables and
--   _attacked, Read is _read_state and _read_move, Move is _capture, apply and identity_value on
--   checked values, Entry the functions on any objects. The loop of _clear has eight rounds as
--   fuel, since two squares on a line are at most seven steps apart. The tables of
--   data/contracts/en_passant.yaml are written out.
-- - Graph/Conflict, Graph/Conflict/*: graph/conflict.py. Check is _validated_state and _state_id,
--   Detect is _changes and detect. A dict is the list of its entries in order.
-- - Chess/Castling, Chess/Castling/*: tools/castling_runtime.py. Check is _validate_state and
--   _validate_move, Apply is apply on checked values, Entry is apply, identity and turn_effect on
--   any objects. The tables of data/contracts/castling.yaml are written out.
-- - Chess/Turn, Chess/Turn/*: tools/turn_runtime.py. Entry is _validate_state, apply_move,
--   identity and termination_for on any objects. The tables of data/contracts/turn.yaml are
--   written out.
-- - Chess/Linkage: the counters of the two, together.
-- - Examples, Examples/*: the theorems at concrete inputs.
--
-- Parameters: derive stands for make_record of graph/node.py with the identity of
-- tools/variant_runtime.py. int_limit stands for the limit of the interpreter on the digits that
-- int reads (sys.get_int_max_str_digits). hexdigest stands for hashlib.sha256 over the UTF-8 bytes
-- of a text, in hexadecimal. The constants of data/contracts/*.yaml are written as the source
-- reads them. A float is given by its finiteness and its repr. An object that contains itself is
-- given by its unfolding, of which no check looks below depth 65.
--
-- Not modelled: the Python object identity of committed states (the model's states are values),
-- and with it the restoring of live inputs that the fingerprinter of the idempotency engine may
-- write to; keys of a subclass of str, which the set comparisons of tools/castling_runtime.py and
-- tools/turn_runtime.py let pass (the model asks for str itself); a limit on the digits of an int
-- that is set below 4,000 (sys.set_int_max_str_digits), under which _scalar of
-- server/jobs_queue.py refuses more; message texts of exceptions; the parts of the repository that
-- have no file here.
pub mod Base
pub mod Python
pub mod Chess
pub mod Jobs
pub mod Graph
pub mod Examples
