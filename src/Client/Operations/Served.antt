-- ===== src/Client/Operations/Served.antt =====
-- src/sqlbus.c and client/hisqlbus.c together: what the server answers, as the client reads it.
use sqlbus.Config.{Config}
use sqlbus.Server.Platform.{Platform}
use sqlbus.Server.Redis.Queue.{Redis}
use sqlbus.Server.Response.Serving.{Serving}
