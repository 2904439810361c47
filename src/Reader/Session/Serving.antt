-- ===== src/Reader/Session/Serving.antt =====
-- What a session does with messages: it is ready, and hands observations on, only after its handshake,
-- and no observation is dropped silently.
use tagstrak.Common.{
  ◌==◌, ℕ, zero, suc, ◌≤◌, ◌<◌, ◌≡◌, ◌⊎◌, ◌∙◌, refl, sym, ap, arith, true, false, List, [], ◌∷◌,
  ◌++◌, length, take, append-nil, append_assoc, Result, ok, err, Bool-cases, Result-cases, inl, inr,
}
use tagstrak.Inventory.{Observation}
use tagstrak.Llrp.Frame.{Message}
use tagstrak.Llrp.Messages.{set_reader_config_message}
use tagstrak.Reader.Config.{Config}
use tagstrak.Reader.Protocol.{
  Error, backpressure, context_error, decode_observations, validate_notification,
  validate_config_response,
}
use tagstrak.Reader.Session.{
  Snapshot, serving, reporting, next_u64, is_ready, transition, opening, requested, open_stage,
  Connection, Incoming, Outcome, goes_on, ends, write_then, count_keepalive, enter, handle_opening,
  handle_requested, send_observations, then_serving, handle_report, handle_serving, handle_stage,
  await, receive, receive_read, and_then, receive_all, connect,
}
use tagstrak.Reader.Session.Stages.{left, receive_all-stage}

-- The messages after the request, up to the response that is accepted: keepalives come before it.
pub data Responded (c : Config) : List Incoming → Type 0 where
  response :
      (i : Incoming) (m : Message) (is : List Incoming)
      → i.read ≡ ok m
      → validate_config_response m c.initial_message_id c.limits ≡ ok tt
      → Responded c (i ∷ is)
  kept_alive :
      (i : Incoming) (m : Message) (is : List Incoming)
      → i.read ≡ ok m
      → m.header.kind ≡ 1086
      → length m.payload ≡ 0
      → i.write ≡ ok tt
      → Responded c is
      → Responded c (i ∷ is)

-- The messages of a connection that start with a whole handshake
pub data Opened (c : Config) : List Incoming → Type 0 where
  notified :
      (i : Incoming) (m : Message) (is : List Incoming)
      → i.read ≡ ok m
      → validate_notification m c.limits true ≡ ok tt
      → i.write ≡ ok tt
      → Responded c is
      → Opened c (i ∷ is)

-- What a connection comes to, by whether the handshake was whole
abbrev pub Shut : Type 0 → List Observation → Connection → Type 0
Shut Handshake out k =
    (Handshake × (k.stage ≡ open_stage)) ⊎ ((k.status.ready ≡ false) × (k.out ≡ out))

-- A connection that has sent its request
abbrev asked : Snapshot → List Message → List Observation → Connection
asked v written out = record { stage = requested; status = v; written = written; out = out }

-- What a message before the response, and the notification, come to
data Requested (c : Config) (i : Incoming) (out : List Observation) : Outcome → Type 0 where
  turned_down :
      (k : Connection) (e : Error)
      → k.status.ready ≡ false
      → k.out ≡ out
      → Requested c i out (ends k e)
  acked :
      (m : Message) (v : Snapshot) (written : List Message)
      → i.read ≡ ok m
      → m.header.kind ≡ 1086
      → length m.payload ≡ 0
      → i.write ≡ ok tt
      → v.ready ≡ false
      → Requested c i out (goes_on (asked v written out))
  accepted :
      (m : Message) (k : Connection)
      → i.read ≡ ok m
      → validate_config_response m c.initial_message_id c.limits ≡ ok tt
      → k.stage ≡ open_stage
      → Requested c i out (goes_on k)

data Notified (c : Config) (i : Incoming) (out : List Observation) : Outcome → Type 0 where
  unwelcome :
      (k : Connection) (e : Error)
      → k.status.ready ≡ false
      → k.out ≡ out
      → Notified c i out (ends k e)
  welcomed :
      (m : Message) (v : Snapshot) (written : List Message)
      → i.read ≡ ok m
      → validate_notification m c.limits true ≡ ok tt
      → i.write ≡ ok tt
      → v.ready ≡ false
      → Notified c i out (goes_on (asked v written out))

write_then-ok :
    (i : Incoming) (m : Message) (k : Connection) (rest : Connection → Outcome)
    → {u : Unit {0}} → i.write ≡ ok u
    → write_then i m k rest ≡ rest (record k { written = k.written ++ m ∷ [] })
unfolding write_then
write_then-ok i m k rest e = ground arith

write_then-err :
    (i : Incoming) (m : Message) (k : Connection) (rest : Connection → Outcome)
    → {x : Error} → i.write ≡ err x
    → write_then i m k rest ≡ ends k x
unfolding write_then
write_then-err i m k rest e = ground arith

module _ (c : Config) (out : List Observation) where
  acked-Requested :
      (i : Incoming) (m : Message) (v : Snapshot) (written : List Message) (ack : Message)
      → i.read ≡ ok m
      → m.header.kind ≡ 1086
      → length m.payload ≡ 0
      → v.ready ≡ false
      → Requested c i out
          (write_then i ack (asked v written out) (λ k'. goes_on (count_keepalive k')))
  unfolding count_keepalive
  acked-Requested i m v written ack r kind none h = elim (Result-cases i.write) [
    | inl (u, e) ↦ rw (write_then-ok i ack (asked v written out) _ e) (acked m _ _ r kind none e h)
    | inr (x, e) ↦ rw (write_then-err i ack (asked v written out) _ e) (turned_down _ x h refl)
  ]

  handle_requested-Requested :
      (i : Incoming) (m : Message) (v : Snapshot) (written : List Message)
      → i.read ≡ ok m
      → v.ready ≡ false
      → Requested c i out (handle_requested c i m (asked v written out))
  unfolding handle_requested enter
  handle_requested-Requested i m v written r h = elim (Bool-cases (m.header.kind == 1086)) [
    | inl kind ↦ elim (Bool-cases (length m.payload == 0)) [
      | inl none ↦
          simp (kind, none) (acked-Requested i m v written _ r (ground arith) (ground arith) h)
      | inr some ↦ simp (kind, some) (turned_down _ _ h refl)
    ]
    | inr other ↦ elim (Result-cases (validate_config_response m c.initial_message_id c.limits)) [
      | inl (u, e) ↦ simp (other, e) (accepted m _ r e refl)
      | inr (x, e) ↦ simp (other, e) (turned_down _ x h refl)
    ]
  ]

  answered_step :
      (i : Incoming) (read : Result Error Message) (v : Snapshot) (written : List Message)
      → i.read ≡ read
      → v.ready ≡ false
      → Requested c i out (receive_read c i read (asked v written out))
  unfolding receive_read handle_stage
  answered_step i (err e) v written r h = turned_down _ e h refl
  answered_step i (ok m) v written r h = handle_requested-Requested i m _ written r h

  answered_rest :
      (i : Incoming) (is : List Incoming) (r : Outcome)
      → Requested c i out r
      → ((v : Snapshot) (written : List Message)
          → v.ready ≡ false
          → Shut (Responded c is) out (left (receive_all c is (asked v written out))))
      → Shut (Responded c (i ∷ is)) out (left (and_then r (receive_all c is)))
  unfolding and_then
  answered_rest i is r (turned_down k e h o) more = inr (h, o)
  answered_rest i is r (acked m v written read kind none write h) more = elim (more v written h) [
    | inl (done, at) ↦ inl (kept_alive i m is read kind none write done, at)
    | inr shut ↦ inr shut
  ]
  answered_rest i is r (accepted m k read valid at) more =
      inl (response i m is read valid, receive_all-stage c is k at)

  requested-Shut :
      (is : List Incoming) (v : Snapshot) (written : List Message)
      → v.ready ≡ false
      → Shut (Responded c is) out (left (receive_all c is (asked v written out)))
  unfolding receive_all receive await
  requested-Shut [] v written h = inr (h, refl)
  requested-Shut (i ∷ is) v written h =
      answered_rest i is _ (answered_step i i.read v written refl h) (requested-Shut is)

  handle_opening-ok :
      (i : Incoming) (m : Message) (k : Connection)
      → {u : Unit {0}} → validate_notification m c.limits true ≡ ok u
      → handle_opening c i m k
        ≡ write_then i
            (set_reader_config_message c.initial_message_id)
            k
            (λ k'. goes_on (record k' { stage = requested }))
  unfolding handle_opening
  handle_opening-ok i m k e = ground arith

  handle_opening-err :
      (i : Incoming) (m : Message) (k : Connection)
      → {x : Error} → validate_notification m c.limits true ≡ err x
      → handle_opening c i m k ≡ ends k x
  unfolding handle_opening
  handle_opening-err i m k e = ground arith

  handle_opening-Notified :
      (i : Incoming) (m : Message) (v : Snapshot)
      → i.read ≡ ok m
      → v.ready ≡ false
      → Notified c i out
          (handle_opening c i m (record { stage = opening; status = v; written = []; out = out }))
  unfolding handle_opening
  handle_opening-Notified i m v r h =
      let k : Connection = record { stage = opening; status = v; written = []; out = out } in
      let request = set_reader_config_message c.initial_message_id in
      let next : Connection → Outcome = λ k'. goes_on (record k' { stage = requested }) in
      elim (Result-cases (validate_notification m c.limits true)) [
        | inl (u, e) ↦ elim (Result-cases i.write) [
          | inl (u', w) ↦
              rw (handle_opening-ok i m k e, write_then-ok i request k next w)
                (welcomed m _ _ r e w h)
          | inr (x, w) ↦
              rw (handle_opening-ok i m k e, write_then-err i request k next w)
                (unwelcome _ x h refl)
        ]
        | inr (x, e) ↦ rw (handle_opening-err i m k e) (unwelcome _ x h refl)
      ]

  opening_step :
      (i : Incoming) (read : Result Error Message) (v : Snapshot)
      → i.read ≡ read
      → v.ready ≡ false
      → Notified c i out
          (receive_read c i read (record { stage = opening; status = v; written = []; out = out }))
  unfolding receive_read handle_stage
  opening_step i (err e) v r h = unwelcome _ e h refl
  opening_step i (ok m) v r h = handle_opening-Notified i m _ r h

  opening_rest :
      (i : Incoming) (is : List Incoming) (r : Outcome)
      → Notified c i out r
      → Shut (Opened c (i ∷ is)) out (left (and_then r (receive_all c is)))
  unfolding and_then
  opening_rest i is r (unwelcome k e h o) = inr (h, o)
  opening_rest i is r (welcomed m v written read valid write h) =
      elim (requested-Shut is v written h) [
        | inl (done, at) ↦ inl (notified i m is read valid write done, at)
        | inr shut ↦ inr shut
      ]

-- Whatever messages a connection brings, and however it ends, one of two things holds. Either the
-- messages start with a whole handshake and the session has come past it: the first message is a
-- notification that `validateNotification` accepts as the initial one, the request is written, and
-- after keepalives without payload, each of which is acknowledged, comes a response that
-- `validateConfigResponse` accepts for the ID of the request. Or the session is not ready and has
-- handed no observation on.
pub receive_all_shut :
    (c : Config) (is : List Incoming) (v : Snapshot) (out : List Observation)
    → (Opened c is × ((left (receive_all c is (connect v out))).stage ≡ open_stage))
      ⊎ (((left (receive_all c is (connect v out))).status.ready ≡ false)
          × ((left (receive_all c is (connect v out))).out ≡ out))
unfolding connect transition is_ready receive_all receive await
receive_all_shut c [] v out = inr (refl, refl)
receive_all_shut c (i ∷ is) v out =
    opening_rest c out i is _ (opening_step c out i i.read _ refl refl)

-- What sending observations comes to: all are taken, or the context is found cancelled before one, or
-- the queue is found full
abbrev pub Sent : ℕ → ℕ → List Observation → Connection → Outcome → Type 0
Sent room checks os k r =
    ((length os ≤ room)
      × (length os ≤ checks)
      × (k' : Connection) × (r ≡ goes_on k')
      × (k'.out ≡ k.out ++ os))
    ⊎ (((checks < length os)
          × (checks ≤ room)
          × (k' : Connection) × (r ≡ ends k' context_error)
          × (k'.out ≡ k.out ++ take checks os))
        ⊎ ((room < length os)
            × (room < checks)
            × (k' : Connection) × (r ≡ ends k' backpressure)
            × (k'.out ≡ k.out ++ take room os)
            × (k'.status.queue_overflows ≡ next_u64 k.status.queue_overflows)))

send_observations_lem :
    (room checks : ℕ) (os : List Observation) (k : Connection)
    → Sent room checks os k (send_observations room checks os k)
unfolding send_observations
send_observations_lem room checks [] k =
    inl (omega arith, omega arith, k, refl, sym (append-nil k.out))
send_observations_lem room zero (o ∷ os) k =
    inr (inl (omega arith, omega arith, _, refl, sym (append-nil k.out)))
send_observations_lem zero (suc checks) (o ∷ os) k =
    inr (inr (omega arith, omega arith, _, refl, sym (append-nil k.out), refl))
send_observations_lem (suc room) (suc checks) (o ∷ os) k =
    let joined = append_assoc k.out (o ∷ []) in
    elim (send_observations_lem room checks os (record k {
      status = record k.status { observations = next_u64 k.status.observations };
      out = k.out ++ o ∷ [];
    })) [
      | inl (few, also, k', e, all) ↦
          inl (omega (arith, few), omega (arith, also), k', e, all ∙ joined os)
      | inr (inl (many, first, k', e, front)) ↦
          inr (
            inl (omega (arith, many), omega (arith, first), k', e, front ∙ joined (take checks os)))
      | inr (inr (many, first, k', e, front, count)) ↦ inr (
          inr (
            omega (arith, many),
            omega (arith, first),
            k',
            e,
            front ∙ joined (take room os),
            count,
          ))
    ]

serving_report :
    (c : Config) (i : Incoming) (m : Message) (k : Connection)
    → m.header.kind ≡ 1085
    → handle_serving c i m k
      ≡ then_serving (
          handle_report i
            (decode_observations m.payload c.limits c.source i.now)
            (enter reporting k))
unfolding handle_serving
serving_report c i m k kind =
    let other : (m.header.kind == 1086) ≡ false = ground arith in
    let this : (m.header.kind == 1085) ≡ true = ground arith in rw (other, this) refl

-- In the last loop, a report whose body decodes comes to one of three ends, by how many observations
-- the output queue has room for and how many looks at the context find it not cancelled. All the
-- observations are handed on, in order, and the session serves on, ready. Or the context is found
-- cancelled before one of them: those before it are handed on, in order, and the connection ends with
-- the context's error. Or the queue is found full: those that it has room for are handed on, in order,
-- the overflow is counted, and the connection ends with `ErrBackpressure`. None is dropped silently.
pub report_handled :
    (c : Config) (i : Incoming) (m : Message) (os : List Observation) (k : Connection)
    → m.header.kind ≡ 1085
    → decode_observations m.payload c.limits c.source i.now ≡ ok os
    → ((length os ≤ i.room)
        × (length os ≤ i.checks)
        × (k' : Connection) × (handle_serving c i m k ≡ goes_on k')
        × (k'.out ≡ k.out ++ os)
        × (k'.status.state ≡ serving)
        × (k'.status.ready ≡ true))
      ⊎ (((i.checks < length os)
            × (i.checks ≤ i.room)
            × (k' : Connection) × (handle_serving c i m k ≡ ends k' context_error)
            × (k'.out ≡ k.out ++ take i.checks os))
          ⊎ ((i.room < length os)
              × (i.room < i.checks)
              × (k' : Connection) × (handle_serving c i m k ≡ ends k' backpressure)
              × (k'.out ≡ k.out ++ take i.room os)
              × (k'.status.queue_overflows ≡ next_u64 k.status.queue_overflows)))
unfolding handle_report enter transition is_ready then_serving
report_handled c i m os k kind decoded =
    let begun : Connection = record k {
      status = record k.status {
        state = reporting;
        ready = true;
        reports = next_u64 k.status.reports;
      };
    } in
    let handled =
      serving_report c i m k kind
      ∙ ap (λ r. then_serving (handle_report i r (enter reporting k))) decoded in
    elim (send_observations_lem i.room i.checks os begun) [
      | inl (few, also, k', e, all) ↦
          inl (few, also, enter serving k', handled ∙ ap then_serving e, all, refl, refl)
      | inr (inl (many, first, k', e, front)) ↦
          inr (inl (many, first, k', handled ∙ ap then_serving e, front))
      | inr (inr (many, first, k', e, front, count)) ↦
          inr (inr (many, first, k', handled ∙ ap then_serving e, front, count))
    ]
