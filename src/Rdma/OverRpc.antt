-- ===== src/Rdma/OverRpc.antt =====
-- outback/outback_client.hh and outback/outback_server.hh over xcomm/src/rpc: a put from the client's
-- request to the seeds that it keeps.
use outback_cxl_numa.Base.{
  ℕ, ◌^◌, ◌<◌, ◌≡◌, true, List, [], ◌∷◌, Run, ok, ◌>>=◌, Returns, some, length, refl, sym, ap, ◌∙◌,
  arith, if◌then◌else◌, ◌==◌, not,
}
use outback_cxl_numa.Ludo.{Ludo}
use outback_cxl_numa.Server.{Reply, Lru}
use outback_cxl_numa.Marshal.{serialize, interpret_as}
use outback_cxl_numa.Marshal.RoundTrip.{length-serialize}
use outback_cxl_numa.Rdma.{RdmaServer, location, outback_put_callback, remote_put, settle}
use outback_cxl_numa.Rdma.Messages.{
  put_message, receive_put, messages_deliver, put_message-length, last_value,
}
use outback_cxl_numa.Rpc.{RpcCore, callback_at, request, finalize, receive, cor_ready}
use outback_cxl_numa.Rpc.Calls.{respond, call_returns}

-- A `ReplyValue`, which is packed: the flag, and the value.
unfoldable pub reply_bytes : Reply → List ℕ
reply_bytes r = (if r.status then 1 else 0) ∷ serialize r.val

abbrev pub first_byte : List ℕ → ℕ
first_byte [] = 0
first_byte (b ∷ bs) = b

unfoldable pub read_reply : List ℕ → Reply
read_reply bytes = record { status = not (first_byte bytes == 0); val = interpret_as bytes 1 }

read-reply_bytes : (r : Reply) → r.val < 2 ^ 64 → read_reply (reply_bytes r) ≡ r
unfolding read_reply reply_bytes interpret_as
read-reply_bytes r h =
    let status : not ((if r.status then 1 else 0) == 0) ≡ r.status = ground arith in
    λ i. record { status = status i; val = last_value 0 0 0 r.val h i }

length-reply_bytes : (r : Reply) → length (reply_bytes r) ≡ 9
unfolding reply_bytes
length-reply_bytes r = omega (arith, length-serialize r.val)

module _ {C : Type 0} (ludo : Ludo) (cache : Lru C) where
  -- What `outback_put_callback` does between the request and the answer.
  unfoldable pub put_service : List ℕ → RdmaServer C → Run (List ℕ × RdmaServer C)
  put_service args s = do (r, s') ← receive_put ludo cache s args; ok (reply_bytes r, s')

  reply-settles :
      (seeds : ℕ → ℕ) (s s' : RdmaServer C) (key val : ℕ) (r : Reply) (bytes : List ℕ)
      → outback_put_callback ludo cache s (location ludo seeds key) key val ≡ ok (r, s')
      → r.val < 2 ^ 64
      → bytes ≡ reply_bytes r
      → settle seeds (ludo.lookup_slot seeds key).0 (read_reply bytes, s')
        ≡ remote_put ludo cache seeds s key val
  unfolding remote_put
  reply-settles seeds s s' key val r bytes runs small filled =
      let row = (ludo.lookup_slot seeds key).0 in
      ap (λ b. settle seeds row (read_reply b, s')) filled
      ∙ ap (λ q. settle seeds row (q, s')) (read-reply_bytes r small)
      ∙ sym (ap (λ call. call >>= settle seeds row) runs)

  -- A put over the network is a put: if the callback, called with the key's location, returns, then a
  -- client's request makes the server take the callback's state and send one answer; and from this
  -- answer the client makes the seeds, or ends, just as `remote_put` does. The number must be that of
  -- the callback and below 32, the key, the value and the value of the reply of 64 bits, and the
  -- coroutine one of the client's, below 128, that awaits nothing.
  pub remote_put_over_rpc :
      {T : Type 0} (connects : List ℕ → T → T)
      (server_connects : List ℕ → RdmaServer C × List (List ℕ) → RdmaServer C × List (List ℕ))
      (client : RpcCore T) (server : RpcCore (RdmaServer C × List (List ℕ)))
      (id cor_id padding padding' : ℕ) (seeds : ℕ → ℕ) (s s' : RdmaServer C)
      (outbox : List (List ℕ)) (key val : ℕ) (r : Reply)
      → callback_at server.callbacks id ≡ some (respond padding' put_service)
      → server.state ≡ (s, outbox)
      → id < 2 ^ 5
      → cor_id < 2 ^ 7
      → cor_id < client.station.num_cors
      → (client.station.cor_replies cor_id).pending_replies ≡ 0
      → key < 2 ^ 64
      → val < 2 ^ 64
      → outback_put_callback ludo cache s (location ludo seeds key) key val ≡ ok (r, s')
      → r.val < 2 ^ 64
      → Returns
          (request client.station 64 id cor_id 9 (put_message (location ludo seeds key) key val))
          λ sent. Returns (receive server_connects server (finalize padding sent.1)) λ server'.
            (msg : List ℕ) × (server'.state ≡ (s', msg ∷ outbox))
            × Returns (receive connects (record client { station = sent.0 }) msg) λ client'.
              (cor_ready client'.station cor_id ≡ true)
              × (settle seeds
                    (ludo.lookup_slot seeds key).0
                    (read_reply (client'.station.cor_replies cor_id).filled, s')
                  ≡ remote_put ludo cache seeds s key val)
  unfolding put_service
  remote_put_over_rpc connects server_connects client server id cor_id padding padding' seeds s s'
        outbox key val r known at_s hi hc inside idle hk hv runs small =
      let loc = location ludo seeds key in
      let hl : loc < 2 ^ 64 = omega arith in
      let delivered = (messages_deliver loc key val ludo cache s hl hk hv).1 in
      let serves : put_service (put_message loc key val) s ≡ ok (reply_bytes r, s') =
        rw (delivered, runs) refl in
      let (sent, asked, (server', served, (msg, state, (client', received, (ready, filled))))) =
        call_returns put_service server_connects connects client server id cor_id 9 padding padding'
          (put_message loc key val) (reply_bytes r) s s' outbox known at_s hi hc inside idle
          (omega (arith, put_message-length loc key val)) serves
          (omega (arith, length-reply_bytes r)) (omega (arith, length-reply_bytes r)) in
      (
        sent,
        asked,
        (
          server',
          served,
          (
            msg,
            state,
            (client', received, (ready, reply-settles seeds s s' key val r _ runs small filled)),
          ),
        ),
      )
