-- ===== src/Rpc/Replies.antt =====
-- xcomm/src/rpc: what an answer does to the table of awaited replies.
use outback_cxl_numa.Base.{
  ℕ, ◌+◌, ◌%◌, ◌^◌, ◌≤◌, ◌<◌, ◌≡◌, ◌≢◌, true, List, [], ok, exited, Returns, length, update, ◌∙◌,
  arith,
}
use outback_cxl_numa.Rpc.{
  sizeof_header, reply, RpcOp, RpcCore, answer, finalize, receive, dispatch, handle_reply,
  append_reply, cor_ready, set_msg, set_type, set_corid, add_opaque,
}
use outback_cxl_numa.Rpc.Delivery.{sent, receive-finalize}

abbrev answer_op : ℕ → ℕ → List ℕ → RpcOp
answer_op sz cor_id content = record {
  header = record { type = reply; rpc_id = 0; payload = 0; cor_id = cor_id };
  sz = sz;
  body = content;
}

module _ {S : Type 0} (connects : List ℕ → S → S) (sz cor_id padding : ℕ) (content : List ℕ)
    (small : sz ≤ 2 ^ 18) (low : cor_id < 2 ^ 7) (fits : length content + sizeof_header ≤ sz) where
  answer-ok : answer sz cor_id content ≡ ok (answer_op sz cor_id content)
  unfolding answer set_msg set_type set_corid add_opaque
  answer-ok = let cor : cor_id % 2 ^ 7 ≡ cor_id = omega arith in rw cor (ground arith)

  module _ (c : RpcCore S) where
    -- An answer reaches the table.
    receive-answer :
        receive connects c (finalize padding (answer_op sz cor_id content))
        ≡ handle_reply c (sent (answer_op sz cor_id content)) content
    unfolding dispatch
    receive-answer =
        receive-finalize connects c padding (answer_op sz cor_id content)
          (record { type = omega arith; rpc_id = omega arith; payload = omega arith; cor_id = low })

    refused :
        (c.station.cor_replies cor_id).pending_replies ≡ 0
        → handle_reply c (sent (answer_op sz cor_id content)) content ≡ exited
    unfolding handle_reply append_reply cor_ready
    refused e = ground arith

    overflows :
        (c.station.cor_replies cor_id).pending_replies ≢ 0
        → (c.station.cor_replies cor_id).size
          < length (c.station.cor_replies cor_id).filled + length content
        → handle_reply c (sent (answer_op sz cor_id content)) content ≡ exited
    unfolding handle_reply append_reply cor_ready
    overflows n long = ground arith

    taken :
        (c.station.cor_replies cor_id).pending_replies ≡ 1
        → (c.station.cor_replies cor_id).filled ≡ []
        → length content ≤ (c.station.cor_replies cor_id).size
        → handle_reply c (sent (answer_op sz cor_id content)) content
          ≡ ok (record c {
            station = record c.station {
              cor_replies =
                  update c.station.cor_replies cor_id (record (c.station.cor_replies cor_id) {
                    pending_replies = 0;
                    filled = content;
                  });
            };
          })
    unfolding handle_reply append_reply cor_ready
    taken e empty room = rw (e, empty) (ground arith)

  -- An answer that fits its own buffer, to a coroutine below 128. If the coroutine awaits one reply, of
  -- at least its size, the answer is in the coroutine's buffer, the coroutine is ready, every other
  -- entry is as before, and the same answer again ends the process. An answer that nobody awaits, and
  -- one that overflows the buffer, end the process.
  pub answer_fills :
      (c : RpcCore S)
      → Returns (answer sz cor_id content) λ op.
        ((c.station.cor_replies cor_id).pending_replies ≡ 1
          → (c.station.cor_replies cor_id).filled ≡ []
          → length content ≤ (c.station.cor_replies cor_id).size
          → Returns (receive connects c (finalize padding op)) λ c'.
            (cor_ready c'.station cor_id ≡ true)
            × ((c'.station.cor_replies cor_id).filled ≡ content)
            × ((k : ℕ) → k ≢ cor_id → c'.station.cor_replies k ≡ c.station.cor_replies k)
            × (receive connects c' (finalize padding op) ≡ exited))
        × ((c.station.cor_replies cor_id).pending_replies ≡ 0
            → receive connects c (finalize padding op) ≡ exited)
        × ((c.station.cor_replies cor_id).pending_replies ≢ 0
            → (c.station.cor_replies cor_id).size
              < length (c.station.cor_replies cor_id).filled + length content
            → receive connects c (finalize padding op) ≡ exited)
  unfolding cor_ready
  answer_fills c = (
    answer_op sz cor_id content,
    answer-ok,
    (
      λ one empty room. (
        _,
        receive-answer c ∙ taken c one empty room,
        (
          ground arith,
          ground arith,
          λ k other. ground arith,
          receive-answer _ ∙ refused _ (ground arith),
        ),
      ),
      λ idle. receive-answer c ∙ refused c idle,
      λ awaited long. receive-answer c ∙ overflows c awaited long,
    ),
  )
