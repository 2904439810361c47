-- ===== src/Reader/Session/Run.antt =====
-- The connections of a session and its retries (internal/reader/session.go, `Run`). What the outside
-- does is given for each connection: how the dial ends, the messages, how the read after the last of
-- them ends, and when the context is cancelled.
use tagstrak.Common.{
  ℕ, zero, suc, ◌+◌, Bool, true, false, not, List, Bytes, Option, none, some, if◌then◌else◌, Result,
  ok, err,
}
use tagstrak.Inventory.{Observation}
use tagstrak.Llrp.Error as Codec
use tagstrak.Reader.Config.{Config, ConfigError, validate, backoff}
use tagstrak.Reader.Protocol.{Error, codec, context_error}
use tagstrak.Reader.Session.{
  State, Snapshot, idle, connecting, reconnecting, stopping, stopped, failed, next_u64, transition,
  Incoming, Outcome, goes_on, ends, receive_all, connect,
}

pub record Attempt : Type 0 where
  pub cancelled_before : Bool
  pub dial : Result Error (Unit {0})
  pub incoming : List Incoming
  pub read_end : Error
  pub cancelled_within : Bool
  pub cancelled_waiting : Bool

-- How `Run` ends: `ErrAlreadyRun`, `ErrConfig` where there is no output queue, the context's error, one
-- that is not retried, or `ErrRetryExhausted`
pub data End : Type 0 where
  already_run no_output cancelled : End
  refused exhausted : Error → End

-- `started` and `status` of `Session`
pub record Session : Type 0 where
  pub started : Bool
  pub status : Snapshot

-- `ErrConfig`, as `New` gives it
pub data NewError : Type 0 where
  invalid : ConfigError → NewError
  no_dialer : NewError

idle_snapshot : Snapshot
idle_snapshot = record {
  state = idle;
  ready = false;
  attempts = 0;
  reconnects = 0;
  frames = 0;
  reports = 0;
  observations = 0;
  keepalives = 0;
  queue_overflows = 0;
  failures = 0;
  last_error = none;
  retry_delay = 0;
}

new_session : (has_dialer : Bool) → Result ConfigError (Unit {0}) → Result NewError Session
unfolding idle_snapshot
new_session has_dialer (err e) = err (invalid e)
new_session has_dialer (ok u) =
    if has_dialer then ok (record { started = false; status = idle_snapshot }) else err no_dialer

-- `New`; the first two arguments are those of `validate`, and the last tells whether there is a dialer.
unfoldable pub new :
    (Bytes → Option Bytes)
    → (Bytes → Option ℕ)
    → Config
    → (has_dialer : Bool) → Result NewError Session
unfolding new_session
new port_of atoi c has_dialer = new_session has_dialer (validate port_of atoi c)

pub record Ran : Type 0 where
  pub status : Snapshot
  pub out : List Observation
  pub dials : ℕ
  pub end : End

-- `retryable`; `transient n` tells of the `n`-th other error of a stream whether it is a network error, a
-- closed pipe or connection, or an exceeded deadline.
unfoldable pub retryable : (ℕ → Bool) → Error → Bool
retryable transient (codec Codec.eof) = true
retryable transient (codec Codec.unexpected_eof) = true
retryable transient (codec (Codec.stream_error n)) = transient n
retryable transient other = false

-- `connected`, which always ends with an error
unfoldable pub ended : Error → Outcome → Snapshot × List Observation × Error
ended e (goes_on k) = (k.status, k.out, e)
ended e (ends k x) = (k.status, k.out, x)

-- The dial, and `connected` if it succeeds
unfoldable pub connect_once :
    Config
    → Attempt
    → Result Error (Unit {0})
    → Snapshot
    → List Observation
    → Snapshot × List Observation × Error
unfolding ended
connect_once c a (err e) v out = (v, out, e)
connect_once c a (ok u) v out = ended a.read_end (receive_all c a.incoming (connect v out))

unfoldable pub dialling : Snapshot → Snapshot
unfolding transition
dialling v =
    let w = transition connecting v in record w { attempts = next_u64 w.attempts; retry_delay = 0 }

noted : Error → Snapshot → Snapshot
noted e v = record v { failures = next_u64 v.failures; last_error = some e }

waiting : ℕ → Snapshot → Snapshot
unfolding transition
waiting delay v =
    transition reconnecting (record v { reconnects = next_u64 v.reconnects; retry_delay = delay })

-- The deferred end of `Run`; `gone` tells whether the context is cancelled by then.
unfoldable pub end_state : (gone : Bool) → End → State
end_state gone cancelled = stopped
end_state gone other = if gone then stopped else failed

unfoldable pub finish : (gone : Bool) → Ran → Session × Ran
unfolding transition end_state
finish gone r =
    let status = transition (end_state gone r.end) (transition stopping r.status) in
    (record { started = true; status = status }, record r { status = status })

-- `ctx.Err() != nil` after the connection: a context stays cancelled once it was found so.
unfoldable pub gone_after : Attempt → Error → Bool
gone_after a context_error = true
gone_after a other = a.cancelled_within

module _ (c : Config) (transient : ℕ → Bool) where
  -- After a connection has failed; `last` tells whether the attempts are used up.
  unfoldable pub after_failure :
      Attempt
      → (last : Bool) → ℕ
      → ℕ
      → Snapshot × List Observation × Error
      → (Snapshot → List Observation → Ran)
      → Ran
  unfolding noted waiting retryable gone_after
  after_failure a last attempt dials (v, out, e) next =
      let v' = noted e v in
      let w = waiting (backoff c (attempt + 1)) v' in
      if gone_after a e
      then record { status = v; out = out; dials = dials; end = cancelled }
      else if not (retryable transient e)
      then record { status = v'; out = out; dials = dials; end = refused e }
      else if last
      then record { status = v'; out = out; dials = dials; end = exhausted e }
      else if a.cancelled_waiting
      then record { status = w; out = out; dials = dials; end = cancelled }
      else next w out

  -- The loop of `Run`; the first number is how many retries are left, the second is `attempt`.
  unfoldable pub run_loop : (ℕ → Attempt) → ℕ → ℕ → Snapshot → List Observation → Ran
  unfolding after_failure connect_once dialling
  run_loop outside zero attempt v out =
      let a = outside attempt in
      let stop : Ran = record { status = v; out = out; dials = attempt; end = cancelled } in
      if a.cancelled_before
      then stop
      else after_failure a true attempt (attempt + 1) (connect_once c a a.dial (dialling v) out)
          (λ w o. stop)
  run_loop outside (suc left) attempt v out =
      let a = outside attempt in
      let stop : Ran = record { status = v; out = out; dials = attempt; end = cancelled } in
      let dialled =
        after_failure a false attempt (attempt + 1) (connect_once c a a.dial (dialling v) out)
          (λ w o. run_loop outside left (attempt + 1) w o) in
      if a.cancelled_before then stop else dialled

  -- `Run` after its compare-and-swap; `has_output` tells whether the output queue is given.
  unfoldable pub start : (has_output : Bool) → (ℕ → Attempt) → Snapshot → List Observation → Ran
  unfolding run_loop
  start false outside v out = record { status = v; out = out; dials = 0; end = no_output }
  start true outside v out = run_loop outside c.max_retries 0 v out

  -- `Run`; `gone` tells whether the context is cancelled when it ends.
  unfoldable pub run :
      (has_output gone : Bool) → (ℕ → Attempt) → Session → List Observation → Session × Ran
  unfolding start finish
  run has_output gone outside s out =
      if s.started
      then (s, record { status = s.status; out = out; dials = 0; end = already_run })
      else finish gone (start has_output outside s.status out)
