-- ===== src/Jobs/Progress/Follows.antt =====
-- Chains of records of server/jobs_progress.py.
use openchess.Python.Dumps.{dumps}
use openchess.Jobs.Queue.Valid.Kept.{digest_grammar}
use openchess.Python.Grammar.{fullmatch}
use openchess.Base.Maybe.{OnRead-at, OnRead, OnRead-bind, guard, wrapped-eq-some}
use openchess.Python.Values.{Value, null}
use mathlib.Core.Path.{subst}
use openchess.Base.{
  refl, true, some, Text, ◌≡◌, ◌≤◌, ◌<◌, arith, text_eq_sound, Option, ok, Bool-cases, inl, text_eq,
  inr, codes, if◌then◌else◌, ◌++◌, none, err, ◌∷◌, OnOk, OnOk-at, text_eq_iff, OnOk-bind, or_else,
  require, or_else-eq-ok,
}
use openchess.Jobs.Progress.{
  Request, Record, chain_ok, progress_id, read_previous, dict, own_record, request_ok, read_record,
  progress_id_grammar, encode_body, encode_record, progress_conflict, malformed_progress_request,
  corrupt_previous_record,
}
use openchess.Jobs.Progress.Report.{make_record, report, id_of, chain_all_ok}
use openchess.Jobs.Progress.Percent.{percent_mono}
use openchess.Jobs.Progress.Readable.{
  Readable, read_record-Readable, IdMatches, InRange, read_record-encode_record, request_ok-InRange,
}

-- The record goes on where the earlier one left off.
pub record Continues (p c : Record) : Type 0 where
  pub same_job : c.job_id ≡ p.job_id
  pub same_worker : c.worker ≡ p.worker
  pub same_total : c.total ≡ p.total
  pub unfinished : p.done < p.total
  pub no_less_done : p.done ≤ c.done
  pub no_lower : p.percent_bp ≤ c.percent_bp
  pub no_earlier : p.reported_at ≤ c.reported_at
  pub linked : c.previous_id ≡ some p.progress_id

-- What `_chain_ok` asks of a request and its previous record.
record Chained (r : Request) (p : Record) : Type 0 where
  pub same_job : r.job_id ≡ p.job_id
  pub same_worker : r.worker ≡ p.worker
  pub same_total : r.total ≡ p.total
  pub unfinished : p.done < p.total
  pub no_less_done : p.done ≤ r.done
  pub no_earlier : p.reported_at ≤ r.now

chain_ok-Chained : (r : Request) (p : Record) → chain_ok r p ≡ true → Chained r p
unfolding chain_ok
chain_ok-Chained r p h =
    ground (arith, text_eq_sound r.job_id p.job_id, text_eq_sound r.worker p.worker)

module _ (hexdigest : Text → Text) where
  chain_ok-Continues :
      (r : Request) (p : Record)
      → Readable p
      → chain_ok r p ≡ true
      → Continues p (make_record hexdigest r (some p))
  unfolding make_record
  chain_ok-Continues r p v h =
      let k = chain_ok-Chained r p h in
      record {
        same_job = k.same_job;
        same_worker = k.same_worker;
        same_total = k.same_total;
        unfinished = k.unfinished;
        no_less_done = k.no_less_done;
        no_lower =
            rw (v.exact, k.same_total)
              (percent_mono p.done r.done p.total (omega (arith, v.some_total)) k.no_less_done);
        no_earlier = k.no_earlier;
        linked = refl;
      }

  own_record-Readable : (v : Value) → OnRead Readable (own_record hexdigest v)
  unfolding own_record
  own_record-Readable v = OnRead-bind Readable (read_record v) _ λ c e.
      OnRead-bind Readable (guard (text_eq c.progress_id (progress_id hexdigest c))) _
        λ _ _. OnRead-at Readable _ (read_record-Readable v) e

  read_previous-Readable :
      (v : Value) (p : Record) → read_previous hexdigest v ≡ some (some p) → Readable p
  unfolding read_previous
  read_previous-Readable (dict i d) p h =
      OnRead-at Readable _ (own_record-Readable (dict i d))
        (wrapped-eq-some (own_record hexdigest (dict i d)) p h)
  read_previous-Readable null p h = absurd (cc)
  read_previous-Readable _ p h = absurd (cc)

  -- A report on a request with a previous record goes on where that record left off: same job, worker
  -- and total, no less done and no lower percentage, not earlier, linked to it by its id; and the
  -- previous record was not yet complete.
  pub report-Continues :
      (request : Value) (r : Request) (p c : Record)
      → request_ok request ≡ some r
      → read_previous hexdigest r.previous ≡ some (some p)
      → report hexdigest request ≡ ok c
      → Continues p c
  unfolding report
  report-Continues request r p c e_r e_p h = elim (Bool-cases (chain_ok r p)) [
    | inl e ↦
        let same : make_record hexdigest r (some p) ≡ c = cc (rw (e_r, e_p, e) at h) in
        subst (Continues p) same
          (chain_ok-Continues r p (read_previous-Readable r.previous p e_p) e)
    | inr e ↦ absurd (cc (rw (e_r, e_p, e) at h))
  ]

module _ (hexdigest : Text → Text)
    (digest_hex : (t : Text) → fullmatch digest_grammar (hexdigest t) ≡ true) where
  progress_id-matches :
      (c : Record) → fullmatch progress_id_grammar (progress_id hexdigest c) ≡ true
  unfolding progress_id fullmatch
  progress_id-matches c = digest_hex (codes "pg1" ++ (0 ∷ dumps true (encode_body c)))

  previous_ids :
      (v : Value) (o : Option Record) → read_previous hexdigest v ≡ some o → IdMatches (id_of o)
  previous_ids v none h = tt
  previous_ids v (some p) h = (read_previous-Readable hexdigest v p h).id_matches

  make_record-Readable :
      (r : Request) (o : Option Record)
      → InRange r
      → IdMatches (id_of o)
      → Readable (make_record hexdigest r o)
  unfolding make_record
  make_record-Readable r o v before = record {
    job_grammar = v.job_grammar;
    worker_matches = v.worker_matches;
    some_total = v.some_total;
    total_bound = v.total_bound;
    done_bound = v.done_bound;
    clock_bound = v.clock_bound;
    exact = refl;
    previous_matches = before;
    id_matches = progress_id-matches _;
  }

  -- The id of a record is that of its other fields.
  make_record-id :
      (r : Request) (o : Option Record)
      → (make_record hexdigest r o).progress_id ≡ progress_id hexdigest (make_record hexdigest r o)
  unfolding make_record progress_id encode_body
  make_record-id r o = refl

  own_record-encode_record :
      (c : Record)
      → Readable c
      → c.progress_id ≡ progress_id hexdigest c
      → own_record hexdigest (encode_record c) ≡ some c
  unfolding own_record
  own_record-encode_record c v own =
      rw
        (read_record-encode_record c v, (text_eq_iff c.progress_id (progress_id hexdigest c)).1 own)
        refl

  read_previous-encode_record :
      (c : Record)
      → Readable c
      → c.progress_id ≡ progress_id hexdigest c
      → read_previous hexdigest (encode_record c) ≡ some (some c)
  unfolding read_previous encode_record
  read_previous-encode_record c v own = rw (own_record-encode_record c v own) refl

  -- What a report leaves behind.
  abbrev Made : Record → Type 0
  Made c = Readable c × (c.progress_id ≡ progress_id hexdigest c)

  report-Made : (request : Value) → OnOk Made (report hexdigest request)
  unfolding report
  report-Made request =
      OnOk-bind Made (or_else malformed_progress_request (request_ok request)) _ λ r e.
        OnOk-bind Made (or_else corrupt_previous_record (read_previous hexdigest r.previous)) _
          λ o e_o. OnOk-bind Made (require (chain_all_ok r o) progress_conflict) _ λ _ _. (
            make_record-Readable r o
                (OnRead-at InRange _ (request_ok-InRange request) (or_else-eq-ok _ _ e))
                (previous_ids r.previous o (or_else-eq-ok _ _ e_o)),
            make_record-id r o,
          )

  -- What `report` returns is accepted as the previous record of a later request: that request is
  -- never refused as corrupt, but only if it does not go on where the record left off. SHA-256 is
  -- assumed to give 64 lower-case hexadecimal digits.
  pub report-accepted :
      (request : Value) (c : Record) (next : Value) (r : Request)
      → report hexdigest request ≡ ok c
      → request_ok next ≡ some r
      → r.previous ≡ encode_record c
      → report hexdigest next
        ≡ (if chain_ok r c then ok (make_record hexdigest r (some c)) else err progress_conflict)
  unfolding report
  report-accepted request c next r h e same =
      let made = OnOk-at Made _ (report-Made request) h in
      let before : read_previous hexdigest r.previous ≡ some (some c) =
        rw same (read_previous-encode_record c made.0 made.1) in
      elim (Bool-cases (chain_ok r c)) [
        | inl k ↦ rw (e, before, k) refl
        | inr k ↦ rw (e, before, k) refl
      ]
