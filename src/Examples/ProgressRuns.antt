-- ===== src/Examples/ProgressRuns.antt =====
-- Runs of server/jobs_progress.py.
use openchess.Base.{
  refl, none, some, ok, err, Text, codes, ◌≡◌, ℕ, text_eq, true, arith, if◌then◌else◌, ◌↔◌,
}
use openchess.Python.Values.{Value, null, text, integer, pos, dict, entry, end, get}
use openchess.Python.Grammar.{fullmatch, is_hex}
use openchess.Jobs.Queue.Valid.Kept.{digest_grammar}
use openchess.Jobs.Progress.{
  Request, Record, request_ok, encode_record, read_previous, chain_ok, percent, progress_conflict,
  bp,
}
use openchess.Jobs.Progress.Report.{report, make_record}
use openchess.Jobs.Progress.Percent.{percent-eq-bp}
use openchess.Jobs.Progress.Follows.{Continues, report-Continues, report-accepted}

abbrev threes : Text → Text
threes t = codes "3333333333333333333333333333333333333333333333333333333333333333"

abbrev job : Text
job = codes "job1:3333333333333333333333333333333333333333333333333333333333333333"

threes-hex : (t : Text) → fullmatch digest_grammar (threes t) ≡ true
unfolding fullmatch is_hex
threes-hex t = refl

abbrev asking : ℕ → ℕ → Value → Value
asking done now previous = dict 1 (
    entry (text (codes "op")) (text (codes "report")) (
      entry (text (codes "job_id")) (text job) (
        entry (text (codes "worker")) (text (codes "w")) (
          entry (text (codes "done")) (integer (pos done)) (
            entry (text (codes "total")) (integer (pos 3)) (
              entry (text (codes "now")) (integer (pos now))
                (entry (text (codes "previous")) previous end)))))))

abbrev first : Request
first = record { job_id = job; worker = codes "w"; total = 3; done = 1; now = 7; previous = null }

abbrev first_record : Record
first_record = make_record threes first none

first_runs : report threes (asking 1 7 null) ≡ ok first_record
unfolding report request_ok openchess.Python.Values.text_keys openchess.Base.text_in text_eq get
    openchess.Python.Values.text_matching fullmatch is_hex openchess.Python.Grammar.is_token
    openchess.Python.Values.int_in read_previous
first_runs = refl

abbrev second : Request
second = record {
  job_id = job;
  worker = codes "w";
  total = 3;
  done = 2;
  now = 9;
  previous = encode_record first_record;
}

second_reads : request_ok (asking 2 9 (encode_record first_record)) ≡ some second
unfolding request_ok openchess.Python.Values.text_keys openchess.Base.text_in text_eq get
    openchess.Python.Values.text_matching fullmatch is_hex openchess.Python.Grammar.is_token
    openchess.Python.Values.int_in encode_record
second_reads = refl

report-accepted_example : report threes (asking 2 9 (encode_record first_record)) ≡ (
    if chain_ok second first_record
    then ok (make_record threes second (some first_record))
    else err progress_conflict)
report-accepted_example =
    report-accepted threes threes-hex (asking 1 7 null) first_record
      (asking 2 9 (encode_record first_record)) second first_runs second_reads refl

first_previous : read_previous threes (encode_record first_record) ≡ some (some first_record)
unfolding read_previous encode_record openchess.Jobs.Progress.own_record
    openchess.Jobs.Progress.read_record openchess.Python.Values.text_keys openchess.Base.text_in
    text_eq get openchess.Python.Values.text_matching fullmatch make_record is_hex
    openchess.Python.Grammar.is_token openchess.Python.Values.int_in percent
    openchess.Jobs.Progress.read_id openchess.Jobs.Progress.progress_id openchess.Base.text_lt
    openchess.Jobs.Progress.encode_body openchess.Python.Dumps.decimal openchess.Python.Dumps.dumps
first_previous = refl

second_runs :
    report threes (asking 2 9 (encode_record first_record))
    ≡ ok (make_record threes second (some first_record))
unfolding chain_ok text_eq make_record
second_runs = report-accepted_example

report-Continues_example : Continues first_record (make_record threes second (some first_record))
report-Continues_example =
    report-Continues threes (asking 2 9 (encode_record first_record)) second first_record
      (make_record threes second (some first_record)) second_reads first_previous second_runs

percent-eq-bp_example : (percent 3 3 ≡ bp) ↔ (◌≡◌ {A = ℕ} 3 3)
percent-eq-bp_example = percent-eq-bp 3 3 (omega arith) (omega arith)
