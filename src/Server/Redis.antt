-- ===== src/Server/Redis.antt =====
-- src/redisop.c: the commands that are sent to redis, each with what its reply has to be.
pub mod Queue
use sqlbus.Prelude.{
  ℕ, ◌+◌, ltb, length, Bool, true, false, not, ◌&&◌, Option, none, some, List, [], ◌∷◌, Bytes,
  codes, take, ℤ, ◌==◌, if◌then◌else◌, strcasecmp_eq, Status, success, failure,
}
use sqlbus.Server.Platform.{
  Platform, Reply, status, error, string, integer, nil, array, Connected, no_context,
  failed_context, usable_context, Arg, word, number, signed,
}
use sqlbus.Server.State.{Ptr, bad, null, live, Handle}
use sqlbus.Server.Exec.{Out, done, fault, Prog, ◌>>=◌, ◌>>◌, pure}

-- PRI_R
abbrev pub pri_r : ℕ
pri_r = 0

abbrev is_integer : Option Reply → Status
is_integer (some integer) = success
is_integer _ = failure

abbrev is_status : Option Reply → Status
is_status (some (status s)) = success
is_status _ = failure

-- strstr(text, pattern) is not NULL.
abbrev starts_with : Bytes → Bytes → Bool
starts_with text [] = true
starts_with [] (c ∷ pattern) = false
starts_with (d ∷ text) (c ∷ pattern) = (c == d) && starts_with text pattern

unfoldable pub strstr : Bytes → Bytes → Bool
strstr [] pattern = starts_with [] pattern
strstr (c ∷ text) pattern =
    let rest = strstr text pattern in if starts_with (c ∷ text) pattern then true else rest

-- What redis_auth makes of the reply.
unfoldable pub is_authenticated : Option Reply → Status
is_authenticated (some (status s)) = if strcasecmp_eq s (codes "OK") then success else failure
is_authenticated (some (error s)) =
    if strstr s (codes "invalid password")
    then failure
    else if strstr s (codes "no password is set")
    then success
    else failure
is_authenticated _ = failure

-- The text of a reply, with what stands before it, fits the array errstr of the handle.
unfoldable pub fits_errstr : ℕ → Option Reply → Bool
fits_errstr prefix (some (status s)) = ltb (prefix + length s) 512
fits_errstr prefix (some (error s)) = ltb (prefix + length s) 512
fits_errstr prefix (some (string s)) = ltb (prefix + length s) 512
fits_errstr prefix _ = true

-- The text of the second of two elements is the request; strdup of a NULL `str` is a fault.
unfoldable pub received : {W : Type 0} → Option Reply → Handle → W → Out (Handle × W) Status
received (some (array (key ∷ some s ∷ []))) h w =
    done success (record h { request_string = live s }, w)
received (some (array (key ∷ none ∷ []))) h w = fault
received reply h w = if fits_errstr 15 reply then done failure (h, w) else fault

module _ (P : Platform) where
  open P use {World, redis_command, redis_connect}

  abbrev command : List Arg → Prog World (Option Reply)
  command args w = done (redis_command args w).0 (redis_command args w).1

  -- sprintf of the text of a reply into errstr, and what follows
  abbrev noted : Option Reply → Prog World Status → Prog World Status
  noted reply m = if fits_errstr 0 reply then m else (λ w. fault)

  -- sqlbus_write_to_redis
  unfoldable pub write_to_redis : Handle → Prog World Status
  write_to_redis h = if h.redis then respond h.send_channel h.response_string else pure failure
    where
      push : Bytes → Bytes → Prog World Status
      push channel response = do
        reply ← command (
            word (if h.priority == pri_r then codes "RPUSH" else codes "LPUSH")
            ∷ word channel
            ∷ word response
            ∷ [])
        pure (is_integer reply)

      respond : Ptr Bytes → Ptr Bytes → Prog World Status
      respond bad _ = λ w. fault
      respond null _ = pure failure
      respond (live channel) bad = λ w. fault
      respond (live channel) null = pure failure
      respond (live channel) (live response) = push channel response

  -- sqlbus_write_back_to_redis
  unfoldable pub write_back_to_redis : Handle → Prog World Status
  write_back_to_redis h = if h.redis then requeue h.recv_channel h.request_string else pure failure
    where
      push : Bytes → Bytes → Prog World Status
      push channel request = do
        reply ← command (word (codes "LPUSH") ∷ word channel ∷ word request ∷ [])
        noted reply (pure (is_integer reply))

      requeue : Ptr Bytes → Ptr Bytes → Prog World Status
      requeue bad _ = λ w. fault
      requeue null _ = pure failure
      requeue (live channel) bad = λ w. fault
      requeue (live channel) null = pure failure
      requeue (live channel) (live request) = push channel request

  -- sqlbus_recv_from_redis
  unfoldable pub recv_from_redis : Prog (Handle × World) Status
  recv_from_redis (h, w) = if h.redis then pop h.recv_channel else done failure (h, w)
    where
      pop : Ptr Bytes → Out (Handle × World) Status
      pop (live channel) =
          let out =
            redis_command (word (codes "BRPOP") ∷ word channel ∷ number h.oper_timeout ∷ []) w in
          received out.0 h out.1
      pop _ = fault

  -- sqlbus_check_redis_connection
  unfoldable pub check_redis_connection : Handle → Prog World Status
  check_redis_connection h =
      if h.redis
      then (do reply ← command (word (codes "PING") ∷ []); noted reply (pure (is_status reply)))
      else pure failure

  -- redis_connection; the host name is cut to 63 bytes. Whether a context is returned.
  unfoldable pub redis_connection : Option Bytes → ℕ → ℕ → Prog World Bool
  redis_connection host port timeo w =
      let out =
        redis_connect (take 63 (elim host [ none ↦ codes "127.0.0.1" | some s ↦ s ])) port timeo
          w in
      done (elim (out.0) [ no_context ↦ false | failed_context ↦ false | usable_context ↦ true ])
        out.1

  -- redis_auth
  unfoldable pub redis_auth : Bool → Option Bytes → Prog World Status
  redis_auth true (some password) = do
    reply ← command (word (codes "AUTH") ∷ word password ∷ [])
    pure (is_authenticated reply)
  redis_auth _ _ = pure failure

  -- redis_select
  unfoldable pub redis_select : Bool → ℤ → Prog World Status
  redis_select redis database =
      if redis
      then (do
        reply ← command (word (codes "SELECT") ∷ signed database ∷ [])
        pure (is_status reply))
      else pure failure

  -- redis_expire
  unfoldable pub redis_expire : Bool → Ptr Bytes → ℕ → Prog World Status
  redis_expire redis bad timeo = λ w. fault
  redis_expire redis null timeo = pure failure
  redis_expire redis (live key) timeo =
      if redis
      then (do
        reply ← command (word (codes "EXPIRE") ∷ word key ∷ number timeo ∷ [])
        pure (is_integer reply))
      else pure failure
