-- ===== src/Examples/JobRuns.antt =====
-- Runs of server/jobs_restart.py, server/jobs_cancel.py and server/jobs_dead_letter.py.
use openchess.Base.{refl, some, ok, err, [], ◌∷◌, Text, codes, ◌≡◌, ◌⊎◌, text_eq, text_in, arith}
use openchess.Python.Values.{
  Value, null, text, integer, pos, dict, list, Items, nil, item, Entries, entry, end, get,
}
use openchess.Jobs.Queue.{Job, State, leased}
use openchess.Jobs.Queue.Check.{check_state, read_state}
use openchess.Jobs.Queue.Valid.{IsValid}
use openchess.Jobs.Stored.{single_job}
use openchess.Jobs.Stored.Alone.{check_state-Matches, Matches}
use openchess.Jobs.Restart
use openchess.Jobs.Restart.{release_all, state_ok}
use openchess.Jobs.Restart.Run.{restart, make_receipt}
use openchess.Jobs.Restart.Accepted.{state_ok-read_state}
use openchess.Jobs.Restart.Released.{nack_all, release_all-again}
use openchess.Jobs.Restart.Receipts.{restart-Accounts}
use openchess.Jobs.Cancel
use openchess.Jobs.Cancel.Decide.{cancel}
use openchess.Jobs.Bury
use openchess.Jobs.Bury.Decide.{bury}
use openchess.Jobs.Bury.Apart.{cancel-bury, Parted}

abbrev twos : Text → Text
twos t = codes "2222222222222222222222222222222222222222222222222222222222222222"

abbrev second_id : Text
second_id = codes "job1:2222222222222222222222222222222222222222222222222222222222222222"

-- A job that the worker `w` holds until 15.
abbrev held_object : Value
held_object = dict 1 (
    entry (text (codes "job_id")) (text second_id) (
      entry (text (codes "seq")) (integer (pos 4)) (
        entry (text (codes "priority")) (integer (pos 0)) (
          entry (text (codes "payload")) (list 2 (item null nil)) (
            entry (text (codes "status")) (text (codes "leased")) (
              entry (text (codes "attempts")) (integer (pos 2)) (
                entry (text (codes "lease_owner")) (text (codes "w"))
                  (entry (text (codes "lease_expires_at")) (integer (pos 15)) end))))))))

abbrev held_items : Items
held_items = item held_object nil

abbrev held_entries : Entries
held_entries =
    entry (text (codes "jobs")) (list 4 held_items)
      (entry (text (codes "next_seq")) (integer (pos 5)) end)

abbrev held_job : Job
held_job = record {
  job_id = second_id;
  seq = 4;
  priority = 0;
  payload = list 2 (item null nil);
  status = leased;
  attempts = 2;
  lease_owner = some (codes "w");
  lease_expires_at = some 15;
}

abbrev held_state : State
held_state = record { jobs = held_job ∷ []; next_seq = 5 }

abbrev restart_request : Value
restart_request = dict 5 (
    entry (text (codes "op")) (text (codes "restart")) (
      entry (text (codes "worker")) (text (codes "w"))
        (entry (text (codes "now")) (integer (pos 10)) end)))

abbrev asked : Restart.Request
asked = record { worker = codes "w"; now = 10 }

abbrev freed_state : State
freed_state = Restart.restarted (codes "w") 10 held_state

abbrev freed_receipt : Restart.Receipt
freed_receipt = make_receipt twos asked held_state freed_state (second_id ∷ [])

held_reads : check_state (dict 3 held_entries) ≡ ok held_state
unfolding check_state openchess.Python.Values.text_keys text_in text_eq openchess.Python.Values.get
    openchess.Python.Values.int_in openchess.Python.Values.text_matching
    openchess.Python.Grammar.fullmatch openchess.Python.Grammar.is_hex
    openchess.Python.Values.int_below openchess.Jobs.Queue.Check.read_status
    openchess.Jobs.Queue.Check.read_lease openchess.Python.Grammar.is_token
    openchess.Jobs.Payload.payloads_ok openchess.Jobs.Payload.walk openchess.Jobs.Payload.size
held_reads = refl

restart_runs : restart twos (dict 3 held_entries) restart_request ≡ ok (freed_state, freed_receipt)
unfolding restart Restart.request_ok openchess.Python.Values.text_keys text_in text_eq get
    openchess.Python.Values.text_matching openchess.Python.Grammar.fullmatch
    openchess.Python.Grammar.is_token openchess.Python.Values.int_in state_ok
    openchess.Jobs.Queue.Check.items_length openchess.Jobs.Stored.stored_job
    openchess.Python.Grammar.is_hex openchess.Python.Values.int_below
    openchess.Jobs.Queue.Check.read_status openchess.Jobs.Queue.Check.read_lease
    openchess.Jobs.Payload.payloads_ok openchess.Jobs.Payload.walk openchess.Jobs.Payload.size
    openchess.Jobs.Payload.starting openchess.Jobs.Payload.scalar openchess.Jobs.Payload.extend
    openchess.Jobs.Queue.Engine.held release_all Restart.jobs_ok
restart_runs = refl

restart-Accounts_example :
    (s : State) × (check_state (dict 3 held_entries) ≡ ok s)
    × (nack_all freed_receipt.worker freed_receipt.restarted_at freed_receipt.released s
        ≡ ok freed_state)
    × IsValid freed_state
restart-Accounts_example =
    restart-Accounts twos (dict 3 held_entries) restart_request freed_state freed_receipt
      restart_runs

release_all-again_example :
    release_all (codes "w") 12 (release_all (codes "w") 10 (held_job ∷ [])).0
    ≡ ((release_all (codes "w") 10 (held_job ∷ [])).0, [])
release_all-again_example = release_all-again (codes "w") 10 12 (held_job ∷ []) (omega arith)

state_ok-read_state_example : state_ok (dict 3 held_entries) ≡ read_state (dict 3 held_entries)
state_ok-read_state_example = state_ok-read_state (dict 3 held_entries)

jobs-held_entries : get (codes "jobs") held_entries ≡ some (list 4 held_items)
unfolding get text_eq
jobs-held_entries = refl

check_state-Matches_example : Matches held_items (held_job ∷ [])
check_state-Matches_example =
    check_state-Matches 3 4 held_entries held_items held_state jobs-held_entries held_reads

abbrev cancel_request : Value
cancel_request = dict 6 (
    entry (text (codes "op")) (text (codes "cancel")) (
      entry (text (codes "job")) held_object (
        entry (text (codes "requester")) (text (codes "u"))
          (entry (text (codes "now")) (integer (pos 10)) end))))

abbrev bury_request : Value
bury_request = dict 7 (
    entry (text (codes "op")) (text (codes "bury")) (
      entry (text (codes "job")) held_object (
        entry (text (codes "reason")) (text (codes "permanent"))
          (entry (text (codes "now")) (integer (pos 11)) end))))

abbrev to_cancel : Cancel.Request
to_cancel = record { job = held_object; requester = codes "u"; now = 10 }

abbrev to_bury : Bury.Request
to_bury = record { job = held_object; reason = Bury.permanent; now = 11 }

cancel_reads : Cancel.request_ok cancel_request ≡ some to_cancel
unfolding Cancel.request_ok openchess.Python.Values.text_keys text_in text_eq
    openchess.Python.Values.get openchess.Python.Values.text_matching
    openchess.Python.Grammar.fullmatch openchess.Python.Grammar.is_token
    openchess.Python.Values.int_in
cancel_reads = refl

bury_reads : Bury.request_ok bury_request ≡ some to_bury
unfolding Bury.request_ok openchess.Python.Values.text_keys text_in text_eq
    openchess.Python.Values.get openchess.Python.Values.int_in
bury_reads = refl

cancel-bury_example :
    ((cancel twos cancel_request ≡ err Cancel.corrupt_job)
      × (bury twos bury_request ≡ err Bury.corrupt_job))
    ⊎ ((j : Job) × (single_job held_object ≡ some j)
        × Parted twos cancel_request to_cancel bury_request to_bury j j.status)
cancel-bury_example =
    cancel-bury twos cancel_request to_cancel bury_request to_bury cancel_reads bury_reads refl
