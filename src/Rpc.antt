-- ===== src/Rpc.antt =====
-- xcomm/src/rpc: the header of a message (proto.hh), the building of one (op.hh), the table of
-- awaited replies (reply_station.hh), and what the receiving loop does with a message (mod.hh). The
-- transport carries the bytes; sessions are its own. The application that callbacks work on is a type.
pub mod Delivery
pub mod Replies
pub mod Calls
use outback_cxl_numa.Base.{
  ℕ, zero, suc, ◌+◌, ◌-◌, ◌*◌, ◌/◌, ◌%◌, ◌^◌, Bool, true, false, Option, none, some, List, [], ◌∷◌,
  ◌++◌, Run, ok, exited, ◌>>=◌, length, add64, sub64, ltb, ◌==◌, if◌then◌else◌, update,
}
use outback_cxl_numa.Marshal.{take, drop, to_bytes, from_bytes}

-- `MsgType`
abbrev pub req : ℕ
req = 1

abbrev pub reply : ℕ
reply = 2

abbrev pub connect : ℕ
connect = 3

-- Bit fields of 2, 5, 18 and 7 bits.
pub record Header : Type 0 where
  pub type : ℕ
  pub rpc_id : ℕ
  pub payload : ℕ
  pub cor_id : ℕ

abbrev pub sizeof_header : ℕ
sizeof_header = 8

-- The word that the fields make up, and the fields of a word.
unfoldable pub pack : Header → ℕ
pack h = h.type + 4 * h.rpc_id + 128 * h.payload + 2 ^ 25 * h.cor_id

unfoldable pub unpack : ℕ → Header
unpack w = record {
  type = w % 4;
  rpc_id = w / 4 % 2 ^ 5;
  payload = w / 128 % 2 ^ 18;
  cor_id = w / 2 ^ 25 % 2 ^ 7;
}

-- The bytes of a header, whose last four are padding.
unfoldable pub header_bytes : ℕ → Header → List ℕ
unfolding pack
header_bytes padding h = to_bytes 4 (pack h) ++ to_bytes 4 padding

unfoldable pub read_header : List ℕ → Header
unfolding unpack
read_header bytes = unpack (from_bytes (take 4 bytes))

-- `RPCOp` over a buffer of `sz` bytes; `body` is what has been added behind the header.
pub record RpcOp : Type 0 where
  pub header : Header
  pub sz : ℕ
  pub body : List ℕ

-- The setters; a field keeps the low bits of what it is given.
unfoldable pub set_msg : RpcOp → ℕ → Run RpcOp
set_msg op sz = if ltb sz sizeof_header then exited else ok (record op { sz = sz; body = [] })

unfoldable pub set_type : RpcOp → ℕ → RpcOp
set_type op type = record op { header = record op.header { type = type } }

unfoldable pub set_rpc_id : RpcOp → ℕ → RpcOp
set_rpc_id op id = record op { header = record op.header { rpc_id = id % 2 ^ 5 } }

unfoldable pub set_corid : RpcOp → ℕ → RpcOp
set_corid op id = record op { header = record op.header { cor_id = id % 2 ^ 7 } }

abbrev pub cur_sz : RpcOp → ℕ
cur_sz op = sizeof_header + length op.body

unfoldable pub add_opaque : RpcOp → List ℕ → Bool × RpcOp
add_opaque op data_ =
    if ltb op.sz (add64 (length data_) (cur_sz op))
    then (false, op)
    else (true, record op { body = op.body ++ data_ })

-- The bytes that are sent.
unfoldable pub finalize : ℕ → RpcOp → List ℕ
unfolding header_bytes
finalize padding op =
    let payload = length op.body % 2 ^ 18 in
    header_bytes padding (record op.header { payload = payload }) ++ take payload op.body

-- A coroutine's entry: how many replies it awaits, and what has come, into a buffer of `size` bytes.
pub record ReplyEntry : Type 0 where
  pub pending_replies : ℕ
  pub size : ℕ
  pub filled : List ℕ

abbrev pub one_reply : ℕ → ReplyEntry
one_reply size = record { pending_replies = 1; size = size; filled = [] }

pub record ReplyStation : Type 0 where
  pub num_cors : ℕ
  pub cor_replies : ℕ → ReplyEntry

unfoldable pub add_pending_reply : ReplyStation → ℕ → ReplyEntry → Run (Bool × ReplyStation)
add_pending_reply s cor_id entry =
    if ltb cor_id s.num_cors
    then if ltb 0 (s.cor_replies cor_id).pending_replies
      then ok (false, s)
      else ok (true, record s { cor_replies = update s.cor_replies cor_id entry })
    else exited

unfoldable pub cor_ready : ReplyStation → ℕ → Bool
cor_ready s cor_id = (s.cor_replies cor_id).pending_replies == 0

unfoldable pub append_reply : ReplyStation → ℕ → List ℕ → Run (Bool × ReplyStation)
unfolding cor_ready
append_reply s cor_id payload =
    let r = s.cor_replies cor_id in
    if cor_ready s cor_id
    then ok (false, s)
    else if ltb r.size (length r.filled + length payload)
    then exited
    else ok (
      true,
      record s {
        cor_replies =
            update s.cor_replies cor_id
              (record r { pending_replies = r.pending_replies - 1; filled = r.filled ++ payload });
      },
    )

-- An operation whose fields nobody has set.
abbrev pub blank : RpcOp
blank = record {
  header = record { type = 0; rpc_id = 0; payload = 0; cor_id = 0 };
  sz = 0;
  body = [];
}

-- A client's request: a reply of `reply_sz` bytes is awaited, and the arguments are added. Whether
-- either was refused is not looked at.
unfoldable pub request : ReplyStation → ℕ → ℕ → ℕ → ℕ → List ℕ → Run (ReplyStation × RpcOp)
unfolding set_msg set_type set_rpc_id set_corid add_pending_reply add_opaque
request s sz id cor_id reply_sz args = do
  op ← set_msg blank sz
  let op' = set_corid (set_rpc_id (set_type op req) id) cor_id
  (added, s') ← add_pending_reply s op'.header.cor_id (one_reply reply_sz)
  ok (s', (add_opaque op' args).1)

-- A server's answer to a coroutine.
unfoldable pub answer : ℕ → ℕ → List ℕ → Run RpcOp
unfolding set_msg set_type set_corid add_opaque
answer sz cor_id content = do
  op ← set_msg blank sz
  let (added, op') = add_opaque (set_type op reply) content
  if added then ok (set_corid op' cor_id) else exited

-- `RPCCore`, with the application's state.
pub record RpcCore (S : Type 0) : Type 0 where
  pub station : ReplyStation
  pub callbacks : List (Header → List ℕ → S → Run S)
  pub state : S

module _ {S : Type 0} where
  unfoldable pub reg_callback : RpcCore S → (Header → List ℕ → S → Run S) → ℕ × RpcCore S
  reg_callback c callback =
      (length c.callbacks, record c { callbacks = c.callbacks ++ callback ∷ [] })

  -- `callbacks.at(i)`
  unfoldable pub callback_at :
      List (Header → List ℕ → S → Run S) → ℕ → Option (Header → List ℕ → S → Run S)
  callback_at [] i = none
  callback_at (f ∷ fs) zero = some f
  callback_at (f ∷ fs) (suc i) = callback_at fs i

  unfoldable pub handle_request : RpcCore S → Header → List ℕ → Run (RpcCore S)
  unfolding callback_at
  handle_request c h payload = elim (callback_at c.callbacks h.rpc_id) [
    | none ↦ exited
    | some f ↦ do state' ← f h payload c.state; ok (record c { state = state' })
  ]

  unfoldable pub handle_reply : RpcCore S → Header → List ℕ → Run (RpcCore S)
  unfolding append_reply
  handle_reply c h payload = do
    (added, station') ← append_reply c.station h.cor_id payload
    if added then ok (record c { station = station' }) else exited

  -- A message whose size and whose header's size of the payload have been checked. `connects` is what
  -- the session manager does.
  unfoldable pub dispatch : (List ℕ → S → S) → RpcCore S → Header → List ℕ → Run (RpcCore S)
  unfolding handle_request handle_reply
  dispatch connects c h payload =
      if h.type == req
      then handle_request c h payload
      else if h.type == reply
      then handle_reply c h payload
      else if h.type == connect
      then ok (record c { state = connects payload c.state })
      else exited

  unfoldable pub receive_with : (List ℕ → S → S) → RpcCore S → Header → List ℕ → Run (RpcCore S)
  unfolding dispatch
  receive_with connects c h msg =
      if ltb (length msg) (h.payload + sizeof_header)
      then exited
      else dispatch connects c h (take h.payload (drop sizeof_header msg))

  unfoldable pub receive : (List ℕ → S → S) → RpcCore S → List ℕ → Run (RpcCore S)
  unfolding read_header receive_with
  receive connects c msg =
      if ltb (length msg) sizeof_header
      then exited
      else receive_with connects c (read_header msg) msg

  -- The messages at hand, one after the other, and how many there were.
  unfoldable pub recv_event_loop :
      (List ℕ → S → S) → List (List ℕ) → ℕ → RpcCore S → Run (ℕ × RpcCore S)
  unfolding receive
  recv_event_loop connects [] num c = ok (num, c)
  recv_event_loop connects (msg ∷ msgs) num c = do
    c' ← receive connects c msg
    recv_event_loop connects msgs (num + 1) c'
