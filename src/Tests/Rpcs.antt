-- ===== src/Tests/Rpcs.antt =====
-- A request and an answer between a client of two coroutines and a server with one callback.
use outback_cxl_numa.Base.{
  ℕ, ◌+◌, ◌≤◌, ◌<◌, ◌≡◌, ◌≢◌, refl, arith, true, List, [], ◌∷◌, Run, ok, exited, Returns, length,
  update,
}
use outback_cxl_numa.Rpc.{
  Header, req, one_reply, ReplyStation, RpcCore, callback_at, request, answer, finalize, receive,
  cor_ready,
}
use outback_cxl_numa.Rpc.Delivery.{Runs, request_delivered}
use outback_cxl_numa.Rpc.Replies.{answer_fills}
use outback_cxl_numa.Rpc.Calls.{respond}
use outback_cxl_numa.Slot.{check_slots, to_length, write_addr}
use outback_cxl_numa.Packed.{bulk_load_data}
use outback_cxl_numa.Packed.Laws.{appended}
use outback_cxl_numa.Server.{Reply, seed_slot}
use outback_cxl_numa.Rdma.{
  RdmaServer, outback_put_callback, put_switch, put_free, remote_put, settle,
}
use outback_cxl_numa.Rdma.Messages.{put_message}
use outback_cxl_numa.Rdma.OverRpc.{put_service, read_reply, remote_put_over_rpc}
use outback_cxl_numa.Tests.{test_ludo, test_cache, empty_buckets, empty_packed}

-- The application counts the bytes of its arguments, and the sessions.
abbrev counting : Header → List ℕ → ℕ → Run ℕ
counting h args n = ok (n + length args)

abbrev connecting : List ℕ → ℕ → ℕ
connecting payload n = n + 1

abbrev idle_station : ReplyStation
idle_station = record {
  num_cors = 2;
  cor_replies = λ i. record { pending_replies = 0; size = 0; filled = [] };
}

abbrev one_callback : RpcCore ℕ
one_callback = record { station = idle_station; callbacks = counting ∷ []; state = 0 }

request_delivered_example : Returns (request idle_station 64 0 1 16 (7 ∷ (8 ∷ []))) λ r.
    (r.0 ≡ record idle_station { cor_replies = update idle_station.cor_replies 1 (one_reply 16) })
    × (2 + 8 ≤ 64
        → receive connecting one_callback (finalize 5 r.1)
          ≡ Runs counting one_callback
              (record { type = req; rpc_id = 0; payload = 2; cor_id = 1 })
              (7 ∷ (8 ∷ [])))
    × (64 < 2 + 8
        → receive connecting one_callback (finalize 5 r.1)
          ≡ Runs counting one_callback
              (record { type = req; rpc_id = 0; payload = 0; cor_id = 1 })
              [])
unfolding callback_at
request_delivered_example =
    request_delivered connecting one_callback counting idle_station 64 0 1 16 5 (7 ∷ (8 ∷ [])) refl
      (omega arith) (omega arith) (omega arith) (omega arith) (omega arith) refl (omega arith)

-- Coroutine 1 awaits a reply of at most 16 bytes.
abbrev awaiting_core : RpcCore ℕ
awaiting_core = record one_callback {
  station = record idle_station { cor_replies = update idle_station.cor_replies 1 (one_reply 16) };
}

answer_fills_example : Returns (answer 64 1 (7 ∷ (8 ∷ []))) λ op.
    (◌≡◌ {A = ℕ} 1 1
      → ◌≡◌ {A = List ℕ} [] []
      → 2 ≤ 16
      → Returns (receive connecting awaiting_core (finalize 5 op)) λ c'.
        (cor_ready c'.station 1 ≡ true)
        × ((c'.station.cor_replies 1).filled ≡ 7 ∷ (8 ∷ []))
        × ((k : ℕ) → k ≢ 1 → c'.station.cor_replies k ≡ awaiting_core.station.cor_replies k)
        × (receive connecting c' (finalize 5 op) ≡ exited))
    × (◌≡◌ {A = ℕ} 1 0 → receive connecting awaiting_core (finalize 5 op) ≡ exited)
    × (◌≢◌ {A = ℕ} 1 0 → 16 < 0 + 2 → receive connecting awaiting_core (finalize 5 op) ≡ exited)
answer_fills_example =
    answer_fills connecting 64 1 5 (7 ∷ (8 ∷ [])) (omega arith) (omega arith) (omega arith)
      awaiting_core

abbrev empty_rdma : RdmaServer ℕ
empty_rdma = record { buckets = empty_buckets; packed = empty_packed; seeds = λ row. 3; lru = 0 }

-- Key 5 goes to slot 3 of row 1, and entry 0.
abbrev after_put : RdmaServer ℕ
after_put = record empty_rdma {
  packed = appended empty_packed 5 8 50;
  buckets = write_addr test_ludo empty_buckets 5 1 3 0 64;
}

abbrev zero_reply : Reply
zero_reply = record { status = true; val = 0 }

put-runs : outback_put_callback test_ludo test_cache empty_rdma 7 5 50 ≡ ok (zero_reply, after_put)
unfolding outback_put_callback put_switch put_free check_slots to_length seed_slot bulk_load_data
put-runs = refl

abbrev rdma_connecting : List ℕ → RdmaServer ℕ × List (List ℕ) → RdmaServer ℕ × List (List ℕ)
rdma_connecting payload s = s

abbrev put_core : RpcCore (RdmaServer ℕ × List (List ℕ))
put_core = record {
  station = idle_station;
  callbacks = respond 0 (put_service test_ludo test_cache) ∷ [];
  state = (empty_rdma, []);
}

remote_put_over_rpc_example : Returns (request idle_station 64 0 1 9 (put_message 7 5 50)) λ sent.
    Returns (receive rdma_connecting put_core (finalize 0 sent.1)) λ server'.
      (msg : List ℕ) × (server'.state ≡ (after_put, msg ∷ []))
      × Returns (receive connecting (record one_callback { station = sent.0 }) msg) λ client'.
        (cor_ready client'.station 1 ≡ true)
        × (settle (λ row. 3) 1 (read_reply (client'.station.cor_replies 1).filled, after_put)
            ≡ remote_put test_ludo test_cache (λ row. 3) empty_rdma 5 50)
unfolding callback_at
remote_put_over_rpc_example =
    remote_put_over_rpc test_ludo test_cache connecting rdma_connecting one_callback put_core 0 1 0
      0 (λ row. 3) empty_rdma after_put [] 5 50 zero_reply refl refl (omega arith) (omega arith)
      (omega arith) refl (omega arith) (omega arith) put-runs (omega arith)
