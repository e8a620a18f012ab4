-- ===== src/Rpc/Calls.antt =====
-- xcomm/src/rpc, outback/outback_client.hh and outback/outback_server.hh: a whole call, from the
-- request to the reply in the caller's buffer.
use outback_cxl_numa.Base.{
  ℕ, ◌+◌, ◌^◌, ◌≤◌, ◌<◌, ◌≡◌, true, List, ◌∷◌, Run, ok, ◌>>=◌, Returns, some, length, update, refl,
  ap, ◌∙◌, arith,
}
use outback_cxl_numa.Rpc.{
  Header, sizeof_header, RpcOp, one_reply, RpcCore, callback_at, request, answer, finalize, receive,
  cor_ready,
}
use outback_cxl_numa.Rpc.Delivery.{Runs, request_delivered}
use outback_cxl_numa.Rpc.Replies.{answer_fills}

-- The head and the tail of a callback around what it does: the answer goes to the coroutine that the
-- request names. The messages sent stand in a list, newest first.
unfoldable pub respond :
    {S : Type 0}
    → ℕ
    → (List ℕ → S → Run (List ℕ × S))
    → Header
    → List ℕ
    → S × List (List ℕ)
    → Run (S × List (List ℕ))
respond padding service h args (s, outbox) = do
  (content, s') ← service args s
  op ← answer 64 h.cor_id content
  ok (s', finalize padding op ∷ outbox)

module _ {S T : Type 0} (service : List ℕ → S → Run (List ℕ × S))
    (server_connects : List ℕ → S × List (List ℕ) → S × List (List ℕ))
    (client_connects : List ℕ → T → T) where
  -- What the server does when the service succeeds.
  runs-responds :
      (server : RpcCore (S × List (List ℕ))) (h : Header) (padding' : ℕ) (args content : List ℕ)
      (s s' : S) (outbox : List (List ℕ)) (op : RpcOp)
      → server.state ≡ (s, outbox)
      → service args s ≡ ok (content, s')
      → answer 64 h.cor_id content ≡ ok op
      → Runs (respond padding' service) server h args
        ≡ ok (record server { state = (s', finalize padding' op ∷ outbox) })
  unfolding respond
  runs-responds server h padding' args content s s' outbox op at_s serves answered =
      ap (λ st. respond padding' service h args st >>= (λ st'. ok (record server { state = st' })))
        at_s
      ∙ rw (serves, answered) refl

  -- A remote call is a call: if the service, called on a request's arguments, succeeds, and arguments
  -- and result fit messages of 64 bytes and the result fits the caller's buffer, then the request is
  -- sent, the server that receives it takes the service's new state and sends one answer, and the
  -- client that receives this answer has the service's result in the coroutine's buffer and the
  -- coroutine ready. The number must be that of the service's callback, and the coroutine one of the
  -- client's, below 128, that awaits nothing.
  pub call_returns :
      (client : RpcCore T) (server : RpcCore (S × List (List ℕ)))
      (id cor_id reply_sz padding padding' : ℕ) (args content : List ℕ) (s s' : S)
      (outbox : List (List ℕ))
      → callback_at server.callbacks id ≡ some (respond padding' service)
      → server.state ≡ (s, outbox)
      → id < 2 ^ 5
      → cor_id < 2 ^ 7
      → cor_id < client.station.num_cors
      → (client.station.cor_replies cor_id).pending_replies ≡ 0
      → length args + sizeof_header ≤ 64
      → service args s ≡ ok (content, s')
      → length content + sizeof_header ≤ 64
      → length content ≤ reply_sz
      → Returns (request client.station 64 id cor_id reply_sz args) λ r.
        Returns (receive server_connects server (finalize padding r.1)) λ server'.
          (msg : List ℕ) × (server'.state ≡ (s', msg ∷ outbox))
          × Returns (receive client_connects (record client { station = r.0 }) msg) λ client'.
            (cor_ready client'.station cor_id ≡ true)
            × ((client'.station.cor_replies cor_id).filled ≡ content)
  call_returns client server id cor_id reply_sz padding padding' args content s s' outbox known at_s
        hi hc inside idle fits serves short room =
      let awaited = record client {
        station = record client.station {
          cor_replies = update client.station.cor_replies cor_id (one_reply reply_sz);
        };
      } in
      let (r, asked, (waits, delivered, _)) =
        request_delivered server_connects server (respond padding' service) client.station 64 id
          cor_id reply_sz padding args known (omega arith) (omega arith) hi hc inside idle
          (omega arith) in
      let (op, answered, (fills, _, _)) =
        answer_fills client_connects 64 cor_id padding' content (omega arith) hc short awaited in
      let (client', received, (ready, filled, _, _)) =
        fills (ground arith) (ground arith) (ground (arith, room)) in
      (
        r,
        asked,
        (
          record server { state = (s', finalize padding' op ∷ outbox) },
          delivered fits
              ∙ runs-responds server _ padding' args content s s' outbox op at_s serves answered,
          (
            finalize padding' op,
            refl,
            (
              client',
              ap
                    (λ st.
                      receive client_connects (record client { station = st })
                        (finalize padding' op))
                    waits
                  ∙ received,
              (ready, filled),
            ),
          ),
        ),
      )
