-- ===== src/Rdma/Messages.antt =====
-- outback/outback_client.hh and outback/outback_server.hh: the bytes of the requests, and the check
-- and the reading of the arguments at the head of each callback. The transport delivers the bytes.
use mathlib.Core.List.{append-nil, append_assoc}
use outback_cxl_numa.Base.{
  ℕ, ◌^◌, ◌<◌, ◌≡◌, List, [], ◌++◌, Run, ok, exited, length, ◌==◌, if◌then◌else◌, refl, ap, ◌∙◌,
  arith, length-append, sym,
}
use outback_cxl_numa.Ludo.{Ludo}
use outback_cxl_numa.Server.{Reply, Lru}
use outback_cxl_numa.Marshal.{serialize, interpret_as}
use outback_cxl_numa.Marshal.RoundTrip.{interpret-serialize, interpret_after, length-serialize}
use outback_cxl_numa.Rdma.{
  RdmaServer, outback_get_callback, outback_put_callback, outback_update_callback,
  outback_remove_callback,
}

-- `data` of `remote_search`, of `remote_put` and `remote_update`, and of `remote_remove`
unfoldable pub get_message : ℕ → ℕ → List ℕ
get_message loc key = serialize loc ++ serialize key

unfoldable pub put_message : ℕ → ℕ → ℕ → List ℕ
put_message loc key val = (serialize loc ++ serialize key) ++ serialize val

unfoldable pub remove_message : ℕ → List ℕ
remove_message key = serialize key

module _ {C : Type 0} (ludo : Ludo) (cache : Lru C) (s : RdmaServer C) where
  unfoldable pub receive_get : List ℕ → Run Reply
  receive_get args =
      if length args == 16 then ok (outback_get_callback ludo s (interpret_as args 0)) else exited

  unfoldable pub receive_put : List ℕ → Run (Reply × RdmaServer C)
  receive_put args =
      if length args == 24
      then outback_put_callback ludo cache s (interpret_as args 0) (interpret_as args 8)
          (interpret_as args 16)
      else exited

  unfoldable pub receive_update : List ℕ → Run (Reply × RdmaServer C)
  receive_update args =
      if length args == 24
      then outback_update_callback ludo cache s (interpret_as args 0) (interpret_as args 8)
          (interpret_as args 16)
      else exited

  unfoldable pub receive_remove : List ℕ → Run (Reply × RdmaServer C)
  receive_remove args =
      if length args == 16
      then ok (outback_remove_callback ludo s (interpret_as args 0) (interpret_as args 8))
      else exited

module _ (loc key val : ℕ) where
  get_message-length : length (get_message loc key) ≡ 16
  unfolding get_message
  get_message-length = omega (
    arith,
    length-append (serialize loc) (serialize key),
    length-serialize loc,
    length-serialize key,
  )

  pub put_message-length : length (put_message loc key val) ≡ 24
  unfolding put_message
  put_message-length = omega (
    arith,
    length-append (serialize loc ++ serialize key) (serialize val),
    length-append (serialize loc) (serialize key),
    length-serialize loc,
    length-serialize key,
    length-serialize val,
  )

  -- The value at the end of a message.
  pub last_value : (t : ℕ) → t < 2 ^ 64 → interpret_as (serialize t) 0 ≡ t
  last_value t h =
      ap (λ bs. interpret_as bs 0) (sym (append-nil (serialize t))) ∙ interpret-serialize t [] h

  get_message-loc : loc < 2 ^ 64 → interpret_as (get_message loc key) 0 ≡ loc
  unfolding get_message
  get_message-loc h = interpret-serialize loc (serialize key) h

  -- The bytes of a put in the order of the reader.
  put_message-right : put_message loc key val ≡ serialize loc ++ (serialize key ++ serialize val)
  unfolding put_message
  put_message-right = append_assoc (serialize loc) (serialize key) (serialize val)

  put_message-loc : loc < 2 ^ 64 → interpret_as (put_message loc key val) 0 ≡ loc
  put_message-loc h = rw put_message-right (interpret-serialize loc _ h)

  put_message-key : key < 2 ^ 64 → interpret_as (put_message loc key val) 8 ≡ key
  put_message-key h = rw put_message-right (
      interpret_after loc 0 (serialize key ++ serialize val)
      ∙ interpret-serialize key (serialize val) h)

  put_message-val : val < 2 ^ 64 → interpret_as (put_message loc key val) 16 ≡ val
  put_message-val h = rw put_message-right (
      interpret_after loc 8 (serialize key ++ serialize val)
      ∙ interpret_after key 0 (serialize val)
      ∙ last_value val h)

  -- The requests of a client reach the server as they were meant: a get, a put and an update of
  -- 64-bit arguments run their callbacks on just these arguments; but every removal ends the server's
  -- process, since its message has the key alone.
  pub messages_deliver :
      {C : Type 0} (ludo : Ludo) (cache : Lru C) (s : RdmaServer C)
      → loc < 2 ^ 64
      → key < 2 ^ 64
      → val < 2 ^ 64
      → (receive_get ludo cache s (get_message loc key) ≡ ok (outback_get_callback ludo s loc))
        × (receive_put ludo cache s (put_message loc key val)
            ≡ outback_put_callback ludo cache s loc key val)
        × (receive_update ludo cache s (put_message loc key val)
            ≡ outback_update_callback ludo cache s loc key val)
        × (receive_remove ludo cache s (remove_message key) ≡ exited)
  unfolding receive_get receive_put receive_update receive_remove remove_message
  messages_deliver ludo cache s hl hk hv = (
    rw (get_message-length, get_message-loc hl) refl,
    rw (put_message-length, put_message-loc hl, put_message-key hk, put_message-val hv) refl,
    rw (put_message-length, put_message-loc hl, put_message-key hk, put_message-val hv) refl,
    rw (length-serialize key) refl,
  )
