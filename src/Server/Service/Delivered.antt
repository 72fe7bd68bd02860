-- ===== src/Server/Service/Delivered.antt =====
-- The answer to a synchronous request, from the database to the response channel.
use sqlbus.Prelude.{◌≡◌, Option, List, [], ◌∷◌, ◌++◌, ℕ, Bytes, codes}
use sqlbus.Config.{Config}
use sqlbus.Server.Platform.{Platform, Reply, word, number}
use sqlbus.Server.Response.Serving.{Serving}

module _ (P : Platform) where
  open P use {World, redis_command}

  abbrev rpush : Bytes → Bytes → World → Option Reply × World
  rpush key s = redis_command (word (codes "RPUSH") ∷ word key ∷ word s ∷ [])

  abbrev expire : Bytes → ℕ → World → Option Reply × World
  expire key t = redis_command (word (codes "EXPIRE") ∷ word key ∷ number t ∷ [])

-- What redis documents of RPUSH, and of EXPIRE, which deletes a list only later: `queue` is the list
-- from its head to its tail.
pub record Appending (P : Platform) (queue : Platform.World P → Bytes → List Bytes) : Type 0 where
  pub rpush_queue :
      (key s : Bytes) (w : Platform.World P) → queue (rpush P key s w).1 key ≡ queue w key ++ s ∷ []
  pub expire_queue :
      (key : Bytes) (t : ℕ) (w : Platform.World P) → queue (expire P key t w).1 key ≡ queue w key
