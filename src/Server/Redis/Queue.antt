-- ===== src/Server/Redis/Queue.antt =====
-- The request queue, a redis list, as the three commands of src/redisop.c see it.
use sqlbus.Prelude.{
  ℕ, zero, suc, ◌≡◌, refl, sym, ap, ◌∙◌, true, Option, none, some, List, [], ◌∷◌, ◌++◌, length,
  Bytes, codes, Status, success,
}
use sqlbus.Server.Platform.{Platform, Reply, integer, array, word, number}
use sqlbus.Server.State.{Ptr, live, Handle}
use sqlbus.Server.Exec.{done, fault, waiting, Returns}
use sqlbus.Server.Redis.{fits_errstr, received, write_back_to_redis, recv_from_redis}

module _ (P : Platform) where
  open P use {World, redis_command}

  abbrev lpush : Bytes → Bytes → World → Option Reply × World
  lpush key s = redis_command (word (codes "LPUSH") ∷ word key ∷ word s ∷ [])

  abbrev brpop : Bytes → ℕ → World → Option Reply × World
  brpop key t = redis_command (word (codes "BRPOP") ∷ word key ∷ number t ∷ [])

-- What redis documents of LPUSH, and of BRPOP on a list that is not empty, over a connection that
-- works: `queue` is the list from its head to its tail.
pub record Redis (P : Platform) : Type 1 where
  pub queue : Platform.World P → Bytes → List Bytes
  pub lpush_reply : (key s : Bytes) (w : Platform.World P) → (lpush P key s w).0 ≡ some integer
  pub lpush_queue :
      (key s : Bytes) (w : Platform.World P) → queue (lpush P key s w).1 key ≡ s ∷ queue w key
  pub brpop_reply :
      (key : Bytes) (t : ℕ) (w : Platform.World P) (xs : List Bytes) (x : Bytes)
      → queue w key ≡ xs ++ x ∷ []
      → (brpop P key t w).0 ≡ some (array (some key ∷ some x ∷ []))
  pub brpop_queue :
      (key : Bytes) (t : ℕ) (w : Platform.World P) (xs : List Bytes) (x : Bytes)
      → queue w key ≡ xs ++ x ∷ []
      → queue (brpop P key t w).1 key ≡ xs

abbrev collect : Status → Ptr Bytes → Option (List Bytes) → Option (List Bytes)
collect success (live s) (some ss) = some (s ∷ ss)
collect _ _ _ = none

-- The requests that n calls of sqlbus_recv_from_redis receive, if all succeed.
unfoldable pub receive_all : (P : Platform) → ℕ → Handle → Platform.World P → Option (List Bytes)
receive_all P zero h w = some []
receive_all P (suc n) h w = elim (recv_from_redis P (h, w)) [
  | done r s ↦ collect r (s.0).request_string (receive_all P n h s.1)
  | fault ↦ none
  | waiting ↦ none
]

-- A queue from its head to its tail, of the requests in the order in which BRPOP takes them.
abbrev queued : List Bytes → List Bytes
queued [] = []
queued (s ∷ ss) = queued ss ++ s ∷ []

queued-snoc : (ss : List Bytes) (s : Bytes) → queued (ss ++ s ∷ []) ≡ s ∷ queued ss
queued-snoc [] s = refl
queued-snoc (x ∷ ss) s = ap (λ q. q ++ x ∷ []) (queued-snoc ss s)

module _ (P : Platform) (R : Redis P) where
  open R use {queue, lpush_reply, lpush_queue, brpop_reply, brpop_queue}

  recv_from_redis-queue :
      (h : Handle) (key : Bytes) (w : Platform.World P) (xs : List Bytes) (x : Bytes)
      → h.redis ≡ true
      → h.recv_channel ≡ live key
      → queue w key ≡ xs ++ x ∷ []
      → recv_from_redis P (h, w)
        ≡ done success (record h { request_string = live x }, (brpop P key h.oper_timeout w).1)
  unfolding recv_from_redis received
  recv_from_redis-queue h key w xs x connected channel q =
      rw (connected, channel, brpop_reply key h.oper_timeout w xs x q) refl

  receive_all-queued :
      (ss : List Bytes) (h : Handle) (key : Bytes) (w : Platform.World P)
      → h.redis ≡ true
      → h.recv_channel ≡ live key
      → queue w key ≡ queued ss
      → receive_all P (length ss) h w ≡ some ss
  unfolding receive_all
  receive_all-queued [] h key w connected channel q = refl
  receive_all-queued (s ∷ ss) h key w connected channel q =
      rw
        (
          receive_all,
          recv_from_redis-queue h key w (queued ss) s connected channel q,
          receive_all-queued ss h key (brpop P key h.oper_timeout w).1 connected channel
              (brpop_queue key h.oper_timeout w (queued ss) s q),
        )
        refl

  write_back_to_redis-lpush :
      (h : Handle) (key s : Bytes) (w : Platform.World P)
      → h.redis ≡ true
      → h.recv_channel ≡ live key
      → h.request_string ≡ live s
      → write_back_to_redis P h w ≡ done success (lpush P key s w).1
  unfolding write_back_to_redis fits_errstr
  write_back_to_redis-lpush h key s w connected channel request =
      rw (connected, channel, request, lpush_reply key s w) refl

  -- On a handle that is connected to such a redis, names the queue and holds a request,
  -- sqlbus_write_back_to_redis succeeds, and the request then comes
  -- behind all that are queued: as many calls of sqlbus_recv_from_redis as there are requests
  -- receive those that were queued, in their order, and then this one.
  pub write_back_to_redis-receive_all :
      (ss : List Bytes) (h : Handle) (key s : Bytes) (w : Platform.World P)
      → h.redis ≡ true
      → h.recv_channel ≡ live key
      → h.request_string ≡ live s
      → queue w key ≡ queued ss
      → Returns
          (λ r w'.
            (r ≡ success) × (receive_all P (length (ss ++ s ∷ [])) h w' ≡ some (ss ++ s ∷ [])))
          (write_back_to_redis P h w)
  write_back_to_redis-receive_all ss h key s w connected channel request q =
      rw (write_back_to_redis-lpush h key s w connected channel request) (
        refl,
        receive_all-queued (ss ++ s ∷ []) h key (lpush P key s w).1 connected channel
            (lpush_queue key s w ∙ ap (λ x. s ∷ x) q ∙ sym (queued-snoc ss s)),
      )
