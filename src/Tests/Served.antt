-- ===== src/Tests/Served.antt =====
-- What a client reads of a table that the server has answered.
use sqlbus.Prelude.{◌≡◌, refl, true, [], codes}
use sqlbus.Server.State.{bad, live, Cycle, Handle}
use sqlbus.Server.Redis.Queue.{Redis}
use sqlbus.Server.Response.Serving.{Printing}
use sqlbus.Server.Response.Shape.{executed, statement_of}
use sqlbus.Tests.Demo.{Lists, received_handle}
use sqlbus.Tests.Server.{connected}
use sqlbus.Tests.Library.{document_text, knowing}
use sqlbus.Tests.Client.{answer_tree}

-- No answers are waiting.
abbrev IsEmpty : Lists → Type 0
IsEmpty w = w (codes "1-2-3") ≡ []

abbrev printing : Printing (knowing answer_tree)
printing = record { printer = λ r. document_text; printed = λ r. refl }

abbrev synchronous : Handle
synchronous = record (received_handle document_text) {
  uuid = live (codes "1-2-3");
  send_channel = live (codes "1-2-3");
  sync = true;
}

abbrev answering : Cycle (knowing answer_tree)
answering = record {
  handle = synchronous;
  henv = live [];
  hdbc = live connected;
  hstmt = live (statement_of executed bad);
  world = λ key. [];
}
