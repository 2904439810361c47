-- ===== src/Emulator/Serve/Round.antt =====
-- Keepalives between the emulator and the client.
use tagstrak.Common.{
  ℕ, ◌+◌, ◌%◌, ◌^◌, ◌<◌, ◌≡◌, refl, arith, true, false, [], ◌∷◌, ◌++◌, Result, ok,
}
use tagstrak.Llrp.Frame.{Message}
use tagstrak.Llrp.Messages.{keepalive_message, keepalive_ack_message}
use tagstrak.Reader.Config as Client
use tagstrak.Reader.Session.{
  Incoming, Connection, handle_serving, goes_on, serving, next_u64, write_then, then_serving,
  transition, is_ready,
}
use tagstrak.Emulator.{Config, Error}
use tagstrak.Emulator.Serve.{
  nothing, ack_of, Link, input, keepalive_due, serves, handle, serve_step,
}

client_acks :
    (client : Client.Config) (i : Incoming) (id : ℕ) (k : Connection)
    → i.write ≡ ok tt
    → handle_serving client i (keepalive_message id) k
      ≡ goes_on (record k {
        status = record k.status {
          state = serving;
          ready = true;
          keepalives = next_u64 k.status.keepalives;
        };
        written = k.written ++ keepalive_ack_message id ∷ [];
      })
unfolding handle_serving write_then then_serving transition is_ready
client_acks client i id k writes = ground arith

ack_handled :
    (id deadline received : ℕ) (l : Link)
    → l.awaited ≡ ack_of id deadline
    → received < deadline
    → handle (ok (keepalive_ack_message id)) received l
      ≡ serves (record l { awaited = nothing; armed = true })
unfolding handle
ack_handled id deadline received l at soon = ground arith

module _ (c : Config) (write : Message → Result Error (Unit {0}))
    (works : (m : Message) → write m ≡ ok tt) where
  keepalive_sent :
      (l : Link) (now : ℕ)
      → l.armed ≡ true
      → serve_step c write (keepalive_due now) l
        ≡ serves (record l {
          awaited = ack_of l.keepalive_id (now + c.ack_timeout);
          armed = false;
          keepalive_id = (l.keepalive_id + 1) % 2 ^ 32;
          written = l.written ++ keepalive_message l.keepalive_id ∷ [];
        })
  unfolding serve_step
  keepalive_sent l now on = ground (arith, works (keepalive_message l.keepalive_id))

  -- A keepalive makes its round: when the emulator's timer is due, it sends a keepalive and stops the
  -- timer; a client that serves and can write acknowledges the keepalive's ID, stays ready and hands
  -- nothing on; and the emulator, if the acknowledgement is read before its deadline, awaits nothing
  -- more and runs its timer again.
  pub keepalive_round :
      (l : Link) (now received : ℕ) (client : Client.Config) (i : Incoming) (k : Connection)
      → l.armed ≡ true
      → i.write ≡ ok tt
      → received < now + c.ack_timeout
      → (asked : Link) × (k' : Connection) × (back : Link) × (serve_step c write
            (keepalive_due now)
            l
          ≡ serves asked)
        × (asked.written ≡ l.written ++ keepalive_message l.keepalive_id ∷ [])
        × (asked.armed ≡ false)
        × (handle_serving client i (keepalive_message l.keepalive_id) k ≡ goes_on k')
        × (k'.written ≡ k.written ++ keepalive_ack_message l.keepalive_id ∷ [])
        × (k'.status.ready ≡ true)
        × (k'.out ≡ k.out)
        × (serve_step c write (input (ok (keepalive_ack_message l.keepalive_id)) received) asked
            ≡ serves back)
        × (back.awaited ≡ nothing)
        × (back.armed ≡ true)
  unfolding serve_step
  keepalive_round l now received client i k on writes soon =
      let asked : Link = record l {
        awaited = ack_of l.keepalive_id (now + c.ack_timeout);
        armed = false;
        keepalive_id = (l.keepalive_id + 1) % 2 ^ 32;
        written = l.written ++ keepalive_message l.keepalive_id ∷ [];
      } in
      (
        asked,
        _,
        record asked { awaited = nothing; armed = true },
        keepalive_sent l now on,
        refl,
        refl,
        client_acks client i l.keepalive_id k writes,
        refl,
        refl,
        refl,
        ack_handled l.keepalive_id (now + c.ack_timeout) received asked refl soon,
        refl,
        refl,
      )
