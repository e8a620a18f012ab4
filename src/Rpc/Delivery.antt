-- ===== src/Rpc/Delivery.antt =====
-- xcomm/src/rpc: what is sent is received as it was meant.
use mathlib.Core.List.{append-nil, append_assoc}
use outback_cxl_numa.Base.{
  ℕ, ◌+◌, ◌/◌, ◌%◌, ◌^◌, ◌≤◌, ◌<◌, ◌≡◌, some, false, List, [], ◌++◌, Run, ok, ◌>>=◌, Returns,
  length, ltb, dec_lt, refl, sym, ap, ◌∙◌, arith, length-append, update,
}
use outback_cxl_numa.Marshal.{take, drop, to_bytes, from_bytes}
use outback_cxl_numa.Marshal.RoundTrip.{from-to_bytes, length-to_bytes, take-append, drop-append}
use outback_cxl_numa.Rpc.{
  Header, sizeof_header, pack, unpack, header_bytes, read_header, RpcOp, finalize, req, one_reply,
  ReplyStation, RpcCore, callback_at, handle_request, dispatch, receive, receive_with, request,
  add_opaque, set_msg, set_type, set_rpc_id, set_corid, add_pending_reply,
}

-- The fields fit their bits.
pub record Fits (h : Header) : Type 0 where
  pub type : h.type < 4
  pub rpc_id : h.rpc_id < 2 ^ 5
  pub payload : h.payload < 2 ^ 18
  pub cor_id : h.cor_id < 2 ^ 7

pack-lt : (h : Header) → Fits h → pack h < 2 ^ 32
unfolding pack
pack-lt h f = omega (arith, f.type, f.rpc_id, f.payload, f.cor_id)

unpack-pack : (h : Header) → Fits h → unpack (pack h) ≡ h
unfolding unpack pack
unpack-pack h f =
    let type : pack h % 4 ≡ h.type = omega (arith, f.type) in
    let rpc_id : pack h / 4 % 2 ^ 5 ≡ h.rpc_id = omega (arith, f.type, f.rpc_id) in
    let payload : pack h / 128 % 2 ^ 18 ≡ h.payload = omega (arith, f.type, f.rpc_id, f.payload) in
    let cor_id : pack h / 2 ^ 25 % 2 ^ 7 ≡ h.cor_id =
      omega (arith, f.type, f.rpc_id, f.payload, f.cor_id) in
    λ i. record { type = type i; rpc_id = rpc_id i; payload = payload i; cor_id = cor_id i }

length-header_bytes : (padding : ℕ) (h : Header) → length (header_bytes padding h) ≡ sizeof_header
unfolding header_bytes
length-header_bytes padding h = omega (
  arith,
  length-append (to_bytes 4 (pack h)) (to_bytes 4 padding),
  length-to_bytes 4 (pack h),
  length-to_bytes 4 padding,
)

read-header_bytes :
    (padding : ℕ) (h : Header) (rest : List ℕ)
    → Fits h
    → read_header (header_bytes padding h ++ rest) ≡ h
unfolding read_header header_bytes
read-header_bytes padding h rest f =
    let word = to_bytes 4 (pack h) in
    let tail = to_bytes 4 padding ++ rest in
    let first : take 4 (word ++ tail) ≡ word =
      ap (λ n. take n (word ++ tail)) (sym (length-to_bytes 4 (pack h))) ∙ take-append word tail in
    let read : from_bytes (take 4 (word ++ tail)) ≡ pack h =
      ap from_bytes first ∙ from-to_bytes 4 (pack h) (omega (arith, pack-lt h f)) in
    ap (λ bs. unpack (from_bytes (take 4 bs))) (append_assoc word (to_bytes 4 padding) rest)
    ∙ ap unpack read
    ∙ unpack-pack h f

-- A message with a header and a payload of its size is dispatched on just these.
pub receive-message :
    {S : Type 0} (connects : List ℕ → S → S) (c : RpcCore S) (padding : ℕ) (h : Header)
    (payload : List ℕ)
    → Fits h
    → length payload ≡ h.payload
    → receive connects c (header_bytes padding h ++ payload) ≡ dispatch connects c h payload
unfolding receive receive_with
receive-message connects c padding h payload f e =
    let head = length-header_bytes padding h in
    let behind : drop sizeof_header (header_bytes padding h ++ payload) ≡ payload =
      ap (λ n. drop n (header_bytes padding h ++ payload)) (sym head)
      ∙ drop-append (header_bytes padding h) payload in
    let whole : take h.payload payload ≡ payload =
      ap (λ n. take n payload) (sym e)
      ∙ ap (take (length payload)) (sym (append-nil payload))
      ∙ take-append payload [] in
    let size : length (header_bytes padding h ++ payload) ≡ 8 + h.payload =
      omega (arith, length-append (header_bytes padding h) payload, head, e) in
    let big : ltb (length (header_bytes padding h ++ payload)) sizeof_header ≡ false =
      ground (arith, size) in
    let enough : ltb (length (header_bytes padding h ++ payload)) (h.payload + sizeof_header)
        ≡ false =
      ground (arith, size) in
    rw big (
      ap (λ hd. receive_with connects c hd (header_bytes padding h ++ payload))
        (read-header_bytes padding h payload f)
      ∙ checked enough (ap (take h.payload) behind ∙ whole))
  where
    checked :
        ltb (length (header_bytes padding h ++ payload)) (h.payload + sizeof_header) ≡ false
        → take h.payload (drop sizeof_header (header_bytes padding h ++ payload)) ≡ payload
        → receive_with connects c h (header_bytes padding h ++ payload)
          ≡ dispatch connects c h payload
    checked enough same = rw (enough, same, receive_with) refl

take-whole {ℓ} : {A : Type ℓ} (xs : List A) → take (length xs) xs ≡ xs
take-whole xs = ap (take (length xs)) (sym (append-nil xs)) ∙ take-append xs []

-- The header that a finished operation sends.
abbrev pub sent : RpcOp → Header
sent op = record op.header { payload = length op.body }

pub receive-finalize :
    {S : Type 0} (connects : List ℕ → S → S) (c : RpcCore S) (padding : ℕ) (op : RpcOp)
    → Fits (sent op)
    → receive connects c (finalize padding op) ≡ dispatch connects c (sent op) op.body
unfolding finalize
receive-finalize connects c padding op f =
    let small : length op.body % 2 ^ 18 ≡ length op.body = omega (arith, f.payload) in
    rw (small, take-whole op.body) (receive-message connects c padding (sent op) op.body f refl)

-- The operation of a request.
abbrev request_op : ℕ → ℕ → ℕ → List ℕ → RpcOp
request_op sz id cor_id body = record {
  header = record { type = req; rpc_id = id; payload = 0; cor_id = cor_id };
  sz = sz;
  body = body;
}

request-Fits :
    (sz id cor_id : ℕ) (body : List ℕ)
    → id < 2 ^ 5
    → cor_id < 2 ^ 7
    → length body < 2 ^ 18
    → Fits (sent (request_op sz id cor_id body))
request-Fits sz id cor_id body hi hc hb = record {
  type = omega arith;
  rpc_id = hi;
  payload = hb;
  cor_id = hc;
}

-- What the server does with a request that it has a callback for.
abbrev pub Runs :
    {S : Type 0} → (Header → List ℕ → S → Run S) → RpcCore S → Header → List ℕ → Run (RpcCore S)
Runs f c h args = do state' ← f h args c.state; ok (record c { state = state' })

dispatch-request :
    {S : Type 0} (connects : List ℕ → S → S) (c : RpcCore S) (sz id cor_id : ℕ) (args : List ℕ)
    (f : Header → List ℕ → S → Run S)
    → callback_at c.callbacks id ≡ some f
    → dispatch connects c (sent (request_op sz id cor_id args)) args
      ≡ Runs f c (sent (request_op sz id cor_id args)) args
unfolding dispatch handle_request
dispatch-request connects c sz id cor_id args f e = rw (e, handle_request) refl

request-ok :
    (s : ReplyStation) (sz id cor_id reply_sz : ℕ) (args : List ℕ)
    → sizeof_header ≤ sz
    → sz ≤ 2 ^ 18
    → id < 2 ^ 5
    → cor_id < 2 ^ 7
    → cor_id < s.num_cors
    → (s.cor_replies cor_id).pending_replies ≡ 0
    → length args < 2 ^ 18
    → (length args + sizeof_header ≤ sz
        → request s sz id cor_id reply_sz args
          ≡ ok (
            record s { cor_replies = update s.cor_replies cor_id (one_reply reply_sz) },
            request_op sz id cor_id args,
          ))
      × (sz < length args + sizeof_header
          → request s sz id cor_id reply_sz args
            ≡ ok (
              record s { cor_replies = update s.cor_replies cor_id (one_reply reply_sz) },
              request_op sz id cor_id [],
            ))
unfolding request set_msg set_type set_rpc_id set_corid add_pending_reply add_opaque
request-ok s sz id cor_id reply_sz args room small hi hc inside none_ short =
    let id_ : id % 2 ^ 5 ≡ id = omega arith in
    let cor : cor_id % 2 ^ 7 ≡ cor_id = omega arith in
    (λ fits. rw (cor, id_) (ground arith), λ long. rw (cor, id_) (ground arith))

-- A request with a known number below 32 and fewer than 2 ^ 18 bytes of arguments, from one of the
-- station's coroutines, below 128, that awaits nothing, over a buffer that holds at least the header and
-- at most 2 ^ 18 bytes: one reply is awaited from then on, and the server that receives the message runs
-- the callback of that number on just the arguments, if they fit the buffer behind the header. If they
-- do not, nobody is told, and the callback runs on no arguments.
pub request_delivered :
    {S : Type 0} (connects : List ℕ → S → S) (c : RpcCore S) (f : Header → List ℕ → S → Run S)
    (s : ReplyStation) (sz id cor_id reply_sz padding : ℕ) (args : List ℕ)
    → callback_at c.callbacks id ≡ some f
    → sizeof_header ≤ sz
    → sz ≤ 2 ^ 18
    → id < 2 ^ 5
    → cor_id < 2 ^ 7
    → cor_id < s.num_cors
    → (s.cor_replies cor_id).pending_replies ≡ 0
    → length args < 2 ^ 18
    → Returns (request s sz id cor_id reply_sz args) λ r.
      (r.0 ≡ record s { cor_replies = update s.cor_replies cor_id (one_reply reply_sz) })
      × (length args + sizeof_header ≤ sz
          → receive connects c (finalize padding r.1)
            ≡ Runs f c
                (record { type = req; rpc_id = id; payload = length args; cor_id = cor_id })
                args)
      × (sz < length args + sizeof_header
          → receive connects c (finalize padding r.1)
            ≡ Runs f c (record { type = req; rpc_id = id; payload = 0; cor_id = cor_id }) [])
request_delivered connects c f s sz id cor_id reply_sz padding args e room small hi hc inside idle
      short =
    let (whole, cut) = request-ok s sz id cor_id reply_sz args room small hi hc inside idle short in
    let runs = λ (body : List ℕ) (h : length body < 2 ^ 18).
      receive-finalize connects c padding (request_op sz id cor_id body)
        (request-Fits sz id cor_id body hi hc h)
      ∙ dispatch-request connects c sz id cor_id body f e in
    elim (dec_lt sz (length args + sizeof_header)) [
      | no fits ↦ (_, whole (omega arith), (refl, λ _. runs args short, λ long. absurd (fits long)))
      | yes long ↦ (
        _,
        cut long,
        (refl, λ fits. absurd (omega (arith, fits, long)), λ _. runs [] (omega arith)),
      )
    ]
