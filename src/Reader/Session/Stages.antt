-- ===== src/Reader/Session/Stages.antt =====
-- A connection that is past its handshake stays there.
use tagstrak.Common.{ℕ, zero, suc, ◌≡◌, refl, arith, List, [], ◌∷◌, Result, ok, err}
use tagstrak.Inventory.{Observation}
use tagstrak.Llrp.Frame.{Message}
use tagstrak.Llrp.Messages.{keepalive_ack_message}
use tagstrak.Reader.Config.{Config}
use tagstrak.Reader.Protocol.{Error, decode_observations}
use tagstrak.Reader.Session.{
  keepalive, reporting, transition, Stage, opening, requested, open_stage, Connection, Incoming,
  Outcome, goes_on, ends, write_then, count_keepalive, enter, send_observations, then_serving,
  handle_report, handle_serving, handle_stage, await, receive, receive_read, and_then, receive_all,
}

-- The connection that an outcome leaves
abbrev pub left : Outcome → Connection
left (goes_on k) = k
left (ends k e) = k

module _ (c : Config) where
  send_observations-stage :
      (room checks : ℕ) (os : List Observation) (k : Connection)
      → (left (send_observations room checks os k)).stage ≡ k.stage
  unfolding send_observations
  send_observations-stage room checks [] k = refl
  send_observations-stage room zero (o ∷ os) k = refl
  send_observations-stage zero (suc checks) (o ∷ os) k = refl
  send_observations-stage (suc room) (suc checks) (o ∷ os) k =
      send_observations-stage room checks os _

  then_serving-stage : (r : Outcome) → (left (then_serving r)).stage ≡ (left r).stage
  unfolding then_serving enter
  then_serving-stage (goes_on k) = refl
  then_serving-stage (ends k e) = refl

  handle_report-stage :
      (i : Incoming) (r : Result Error (List Observation)) (k : Connection)
      → (left (handle_report i r k)).stage ≡ k.stage
  unfolding handle_report
  handle_report-stage i (err e) k = refl
  handle_report-stage i (ok os) k = send_observations-stage i.room i.checks os _

  serve_keepalive-stage :
      (i : Incoming) (ack : Message) (k : Connection)
      → (left (
          then_serving
            (write_then i ack (enter keepalive k) (λ k'. goes_on (count_keepalive k'))))).stage
        ≡ k.stage
  unfolding then_serving write_then count_keepalive enter
  serve_keepalive-stage i ack k = ground arith

  handle_serving-stage :
      (i : Incoming) (m : Message) (k : Connection)
      → k.stage ≡ open_stage
      → (left (handle_serving c i m k)).stage ≡ open_stage
  unfolding handle_serving enter
  handle_serving-stage i m k at =
      let begun : Connection = record k { status = transition reporting k.status } in
      let reported =
        handle_report-stage i (decode_observations m.payload c.limits c.source i.now) begun in
      ground (
        arith,
        then_serving-stage
            (handle_report i (decode_observations m.payload c.limits c.source i.now) begun),
        reported,
        serve_keepalive-stage i (keepalive_ack_message m.header.id) k,
      )

  stage_serving :
      (i : Incoming) (m : Message) (stage : Stage) (k : Connection)
      → stage ≡ open_stage
      → k.stage ≡ open_stage
      → (left (handle_stage stage c i m k)).stage ≡ open_stage
  unfolding handle_stage
  stage_serving i m opening k s at = cc
  stage_serving i m requested k s at = cc
  stage_serving i m open_stage k s at = handle_serving-stage i m k at

  receive_read-stage :
      (i : Incoming) (read : Result Error Message) (k : Connection)
      → k.stage ≡ open_stage
      → (left (receive_read c i read k)).stage ≡ open_stage
  unfolding receive_read
  receive_read-stage i (ok m) k at = stage_serving i m k.stage _ at at
  receive_read-stage i (err e) k at = at

  await-stage :
      (stage : Stage) (i : Incoming) (k : Connection)
      → k.stage ≡ open_stage
      → (left (await stage c i k)).stage ≡ open_stage
  unfolding await
  await-stage opening i k at = receive_read-stage i i.read k at
  await-stage requested i k at = receive_read-stage i i.read k at
  await-stage open_stage i k at = ground (arith, receive_read-stage i i.read k at)

  and_then-stage :
      (r : Outcome) (rest : Connection → Outcome)
      → (left r).stage ≡ open_stage
      → ((k : Connection) → k.stage ≡ open_stage → (left (rest k)).stage ≡ open_stage)
      → (left (and_then r rest)).stage ≡ open_stage
  unfolding and_then
  and_then-stage (goes_on k) rest h more = more k h
  and_then-stage (ends k e) rest h more = h

  pub receive_all-stage :
      (is : List Incoming) (k : Connection)
      → k.stage ≡ open_stage
      → (left (receive_all c is k)).stage ≡ open_stage
  unfolding receive_all receive
  receive_all-stage [] k at = at
  receive_all-stage (i ∷ is) k at =
      and_then-stage (receive c i k) (receive_all c is) (await-stage k.stage i k at)
        (receive_all-stage is)
