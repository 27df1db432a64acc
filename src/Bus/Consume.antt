-- ===== src/Bus/Consume.antt =====
-- bus/consumer.rs and bus/escalations.rs, the loops over a subscription: what the stream yields is
-- a list, a message with its number and payload or an error of the stream.
use myccmonitor.Prelude.{
  ℕ, ◌≡◌, refl, Bool-cases, inl, inr, List, [], ◌∷◌, map, ◌++◌, if◌then◌else◌,
}
use myccmonitor.Error.{Error, Result, ok, err}
use myccmonitor.Task.{◌>>◌, pure, throw, attempt, run}
use myccmonitor.Task.Run.{run_laws}
use myccmonitor.World.{World, Async, query, tick, is_down}
use myccmonitor.Store.Webhooks.{acknowledge_message}

abbrev pub Message : Type 0
Message = ℕ × List ℕ

-- `consumer.ack(&msg).await`
unfoldable pub ack : ℕ → Async (Unit {0})
ack id = query (λ now fresh db. (tt, acknowledge_message id db))

-- `while let Some(msg) = consumer.try_next().await? { … }`
unfoldable pub consume : (List ℕ → Async (Unit {0})) → List (Result Message) → Async (Unit {0})
unfolding ack
consume process [] = pure tt
consume process (err e ∷ rest) = throw e
consume process (ok (id, payload) ∷ rest) = do
  attempt (process payload)
  attempt (ack id)
  consume process rest

-- The message is handled, whatever that comes to, and the acknowledgement is tried.
abbrev pub acknowledged : ℕ → World → World
acknowledged id w =
    if is_down w then tick w else tick (record w { db = acknowledge_message id w.db })

unfoldable pub deliver_all : (List ℕ → Async (Unit {0})) → List Message → World → World
deliver_all process [] w = w
deliver_all process ((id, payload) ∷ rest) w =
    deliver_all process rest (acknowledged id (run (process payload) w).1)

run-ack : (id : ℕ) (w : World) → (run (ack id) w).1 ≡ acknowledged id w
unfolding ack query
run-ack id w = elim (Bool-cases (is_down w)) [
  | inl e ↦ simp (run_laws, e) refl
  | inr e ↦ simp (run_laws, e) refl
]

consume-deliver_all :
    (process : List ℕ → Async (Unit {0})) (messages : List Message) (rest : List (Result Message))
    (w : World)
    → run (consume process (map ok messages ++ rest)) w
      ≡ run (consume process rest) (deliver_all process messages w)
unfolding consume deliver_all
consume-deliver_all process [] rest w = refl
consume-deliver_all process ((id, payload) ∷ messages) rest w =
    simp (run_laws, run-ack, consume-deliver_all process messages rest) refl

-- No message stops a consumer: whether the handling of the messages before comes to a result or an
-- error, and whichever acknowledgements fail, the loop ends with the end of the stream, well, or with its first error,
-- and by then each message before that has been handled, once and in the order of the stream, and
-- its acknowledgement tried after it.
pub consume_ends :
    (process : List ℕ → Async (Unit {0})) (messages : List Message) (e : Error)
    (rest : List (Result Message)) (w : World)
    → (run (consume process (map ok messages ++ [])) w ≡ (ok tt, deliver_all process messages w))
      × (run (consume process (map ok messages ++ (err e ∷ rest))) w
          ≡ (err e, deliver_all process messages w))
unfolding consume
consume_ends process messages e rest w = (
  simp (consume-deliver_all process messages, run_laws) refl,
  simp (consume-deliver_all process messages, run_laws) refl,
)
