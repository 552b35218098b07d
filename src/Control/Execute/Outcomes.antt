-- ===== src/Control/Execute/Outcomes.antt =====
-- What an operation ends with.
use clash_nyanpasu_service.Shared.{
  ◌≡◌, ◌≢◌, ◌⊎◌, refl, ap, Bytes, codes, bytes_eq, bytes_eq_iff, false, Bool-cases, Option, none,
  some, inl, inr, arith,
}
use clash_nyanpasu_service.Failure.{CoreErrorKind, Error}
use clash_nyanpasu_service.Control.OperationId.{OperationId}
use clash_nyanpasu_service.Control.Digest.{payload_digest}
use clash_nyanpasu_service.Control.Command.{
  ReconcileRequest, CoreCommand, reconcile, stop, recover, shutdown, ApplyOutcome, OperationOutput,
  reconciled, stopped, recovered, shut_down, CoreError, from_domain,
}
use clash_nyanpasu_service.Control.Plane.{Outcome, completes, fails, panics}
use clash_nyanpasu_service.Control.Execute.{
  Environment, Reconciled, applied, rejected, Materialized, written, refused, domain, stored, store,
  place, materialize, reconcile_outcome, reconcile_written, reconcile_request, unit_outcome,
  instance_spec, execute, mismatch_error,
}

-- An output answers a command: the one that says what the command did.
abbrev pub Answers : CoreCommand → OperationOutput → Type 0
Answers (reconcile r) output = (o : ApplyOutcome) × (output ≡ reconciled o)
Answers stop output = output ≡ stopped
Answers recover output = output ≡ recovered
Answers shutdown output = output ≡ shut_down

-- An outcome of an operation: an output that answers its command, or an error that carries its id.
abbrev pub Settles : OperationId → CoreCommand → Outcome → Type 0
Settles id command (completes output) = Answers command output
Settles id command (fails error) = error.operation_id ≡ some id
Settles id command (panics join) = ⊥

abbrev Refers : OperationId → Materialized → Type 0
Refers id (written path) = Unit
Refers id (refused error) = error.operation_id ≡ some id

module _ {World : Type 0} (env : Environment World) where
  stored-Refers :
      (path : Bytes) (id : OperationId) (r : World × Option Bytes)
      → Refers id (stored env path id r).1
  unfolding stored domain from_domain
  stored-Refers path id (w, none) = tt
  stored-Refers path id (w, some error) = refl

  place-Refers :
      (dir file_name bytes : Bytes) (id : OperationId) (r : World × Option Bytes)
      → Refers id (store env dir file_name bytes id r).1
  unfolding store domain from_domain
  place-Refers dir file_name bytes id (w, none) =
      let path = env.join_path dir file_name in stored-Refers path id (env.write path bytes w)
  place-Refers dir file_name bytes id (w, some error) = refl

  materialize-Refers :
      (dir file_name bytes : Bytes) (digest : Option Bytes) (id : OperationId) (w : World)
      → Refers id
          (materialize env dir file_name
            (record { bytes = bytes; expected_digest = digest })
            id
            w).1
  unfolding materialize place mismatch_error
  materialize-Refers dir file_name bytes none id w =
      place-Refers dir file_name bytes id (env.create_dir_all dir w)
  materialize-Refers dir file_name bytes (some d) id w =
      elim (Bool-cases (bytes_eq d (payload_digest bytes))) [
        | inl e ↦ rw e (place-Refers dir file_name bytes id (env.create_dir_all dir w))
        | inr e ↦ rw e refl
      ]

  reconcile-Settles :
      (id : OperationId) (r : ReconcileRequest) (o : World × Reconciled)
      → Settles id (reconcile r) (reconcile_outcome env id o).1
  unfolding reconcile_outcome domain from_domain
  reconcile-Settles id r (w, applied outcome) = (outcome, refl)
  reconcile-Settles id r (w, rejected error) = refl

  written-Settles :
      (dir : Bytes) (id : OperationId) (r : ReconcileRequest) (m : World × Materialized)
      → Refers id m.1
      → Settles id (reconcile r) (reconcile_written env dir id r m).1
  unfolding reconcile_written
  written-Settles dir id r (w, refused error) h = h
  written-Settles dir id r (w, written path) h = reconcile-Settles id r _

  unit-Settles :
      (id : OperationId) (command : CoreCommand) (output : OperationOutput)
      (r : World × Option Error)
      → Answers command output
      → Settles id command (unit_outcome env id output r).1
  unfolding unit_outcome domain from_domain
  unit-Settles id command output (w, none) a = a
  unit-Settles id command output (w, some error) a = refl

  -- Every operation ends with an output of its command's kind, or with an error that carries the
  -- operation's id, whatever the manager and the file system answer.
  pub execute-Settles :
      (source_dir working_dir : Bytes) (id : OperationId) (command : CoreCommand) (w : World)
      → Settles id command (execute env source_dir working_dir id command w).1
  unfolding execute reconcile_request unit_outcome domain from_domain
  execute-Settles source_dir working_dir id (reconcile r) w = written-Settles working_dir id r _ (
      materialize-Refers source_dir (codes "reconcile-source.yaml") r.config.bytes
        r.config.expected_digest id w)
  execute-Settles source_dir working_dir id stop w =
      unit-Settles id stop stopped (env.stop_core w) refl
  execute-Settles source_dir working_dir id recover w =
      unit-Settles id recover recovered (env.recover_quarantine w) refl
  execute-Settles source_dir working_dir id shutdown w =
      unit-Settles id shutdown shut_down (env.shut_manager w) refl

  -- A reconcile whose declared digest is not that of its configuration fails as an invalid
  -- configuration that is not worth a retry, and changes nothing: no file is touched and the manager
  -- is not called.
  pub execute-digest_mismatch :
      (source_dir working_dir : Bytes) (id : OperationId) (r : ReconcileRequest) (d : Bytes)
      (w : World)
      → r.config.expected_digest ≡ some d
      → d ≢ payload_digest r.config.bytes
      → (error : CoreError) × (execute env source_dir working_dir id (reconcile r) w
          ≡ (w, fails error))
        × (error.kind ≡ some CoreErrorKind.invalid_config)
        × (error.retryable ≡ false)
  unfolding execute reconcile_request materialize reconcile_written mismatch_error
  execute-digest_mismatch source_dir working_dir id r d w e ne =
      let differs : bytes_eq d (payload_digest r.config.bytes) ≡ false =
        ground (arith, bytes_eq_iff d (payload_digest r.config.bytes)) in
      (mismatch_error d (payload_digest r.config.bytes) id, rw (e, differs) refl, refl, refl)

  -- What the two calls of the file system can leave: nothing done, the directory made, or the file
  -- written after that.
  abbrev pub OnlyFiles : (dir path bytes : Bytes) → (w w' : World) → Type 0
  OnlyFiles dir path bytes w w' =
      let made = env.create_dir_all dir w in
      (w' ≡ w) ⊎ (w' ≡ made.0) ⊎ (w' ≡ (env.write path bytes made.0).0)

  module _ (read : Bytes → World → Option Bytes) where
    -- What a write that succeeds can be read back as.
    abbrev pub ReadsBack : Type 0
    ReadsBack =
        (path bytes : Bytes) (w : World)
        → (env.write path bytes w).1 ≡ none
        → read path (env.write path bytes w).0 ≡ some bytes

    abbrev Placed : (dir path bytes : Bytes) → World → World × Materialized → Type 0
    Placed dir path bytes w (w', written p) = (p ≡ path) × (read path w' ≡ some bytes)
    Placed dir path bytes w (w', refused error) = OnlyFiles dir path bytes w w'

    stored-Placed :
        (dir path bytes : Bytes) (id : OperationId) (w : World) (r : World × Option Bytes)
        → r ≡ env.write path bytes (env.create_dir_all dir w).0
        → (r.1 ≡ none → read path r.0 ≡ some bytes)
        → Placed dir path bytes w (stored env path id r)
    unfolding stored
    stored-Placed dir path bytes id w (w', none) e law = (refl, law refl)
    stored-Placed dir path bytes id w (w', some error) e law = inr (inr (ap (λ x. x.0) e))

    store-Placed :
        (dir file_name bytes : Bytes) (id : OperationId) (w : World) (r : World × Option Bytes)
        → ReadsBack
        → r ≡ env.create_dir_all dir w
        → Placed dir (env.join_path dir file_name) bytes w (store env dir file_name bytes id r)
    unfolding store
    store-Placed dir file_name bytes id w (w', none) law e =
        let path = env.join_path dir file_name in
        stored-Placed dir path bytes id w (env.write path bytes w')
          (ap (λ r. env.write path bytes r.0) e) (law path bytes w')
    store-Placed dir file_name bytes id w (w', some error) law e = inr (inl (ap (λ x. x.0) e))

    materialize-Placed :
        (dir file_name bytes : Bytes) (digest : Option Bytes) (id : OperationId) (w : World)
        → ReadsBack
        → Placed dir (env.join_path dir file_name) bytes w (
            materialize env dir file_name (record { bytes = bytes; expected_digest = digest }) id w)
    unfolding materialize place
    materialize-Placed dir file_name bytes none id w law =
        store-Placed dir file_name bytes id w (env.create_dir_all dir w) law refl
    materialize-Placed dir file_name bytes (some d) id w law =
        elim (Bool-cases (bytes_eq d (payload_digest bytes))) [
          | inl e ↦ rw e (store-Placed dir file_name bytes id w (env.create_dir_all dir w) law refl)
          | inr e ↦ rw e (inl refl)
        ]

    -- What the manager answers, told to the caller of the operation.
    abbrev pub Told : OperationId → World × Reconciled → World × Outcome → Type 0
    Told id (w, applied outcome) (v, o) = (v ≡ w) × (o ≡ completes (reconciled outcome))
    Told id (w, rejected error) (v, o) =
        (v ≡ w) × (o ≡ fails (from_domain env.to_string error (some id)))

    -- The manager is called once, with the file that holds the configuration, or never.
    abbrev pub Delivers :
        (source_dir working_dir : Bytes)
        → OperationId
        → ReconcileRequest
        → World
        → World × Outcome
        → Type 0
    Delivers source_dir working_dir id r w o =
        let path = env.join_path source_dir (codes "reconcile-source.yaml") in
        ((w' : World) × (read path w' ≡ some r.config.bytes)
          × Told id
              (env.reconcile_core
                (record {
                  core = r.core;
                  config_path = path;
                  working_dir = working_dir;
                  pid_file = none;
                  options = r.options;
                })
                r.expected_applied w')
              o)
        ⊎ (OnlyFiles source_dir path r.config.bytes w o.0
            × (error : CoreError) × (o.1 ≡ fails error))

    outcome-Told :
        (id : OperationId) (a : World × Reconciled) → Told id a (reconcile_outcome env id a)
    unfolding reconcile_outcome domain
    outcome-Told id (w, applied outcome) = (refl, refl)
    outcome-Told id (w, rejected error) = (refl, refl)

    written-Delivers :
        (source_dir working_dir : Bytes) (id : OperationId) (r : ReconcileRequest) (w : World)
        (m : World × Materialized)
        → Placed source_dir
            (env.join_path source_dir (codes "reconcile-source.yaml"))
            r.config.bytes
            w
            m
        → Delivers source_dir working_dir id r w (reconcile_written env working_dir id r m)
    unfolding reconcile_written instance_spec
    written-Delivers source_dir working_dir id r w (w', refused error) h = inr (h, error, refl)
    written-Delivers source_dir working_dir id r w (w', written p) (same, h) =
        inl (w', h, rw same (outcome-Told id _))

    -- Where a write that succeeds can be read back, a reconcile either calls the manager once, with the
    -- file `reconcile-source.yaml` of the source directory, which then holds the request's configuration
    -- byte for byte, and with the request's core, options and expected revision, and ends with what the
    -- manager answers; or it fails, and has done nothing but to make the directory and to write that file.
    pub execute-Delivers :
        (source_dir working_dir : Bytes) (id : OperationId) (r : ReconcileRequest) (w : World)
        → ReadsBack
        → Delivers source_dir working_dir id r w
            (execute env source_dir working_dir id (reconcile r) w)
    unfolding execute reconcile_request
    execute-Delivers source_dir working_dir id r w law =
        written-Delivers source_dir working_dir id r w _ (
          materialize-Placed source_dir (codes "reconcile-source.yaml") r.config.bytes
            r.config.expected_digest id w law)
