-- ===== src/Rpc/Handlers.antt =====
-- `onNotify`, `onCall` and `onReply` of lspserver/src/LSPServer.cpp, on what a message asks for.
use nixd.Prelude.{Bool, true, false, List, Bytes, codes, bytes_eq, if◌then◌else◌}
use nixd.Connection.Dispatch.{Action, Reply, rejected, on_call, on_notify}
use nixd.Connection.Json.{JsonOps}
use nixd.Rpc.Pending.{Server, Event, Exception, Outcome, thrown, handled, on_reply}

-- Which methods have a handler (`Registry`).
pub record HandlerRegistry : Type 0 where
  pub has_notification : Bytes → Bool
  pub has_method : Bytes → Bool

-- What is invoked for a message.
pub data Invoked (C V : Type 0) : Type 0 where
  nothing : Invoked C V
  notification : Bytes → V → Invoked C V
  method : Bytes → V → V → Invoked C V
  callbacks : List (Event C (Reply V)) → Invoked C V

-- The server that a message leaves, what it invokes and whether the loop goes on.
pub data Handled (C V : Type 0) : Type 0 where
  raised : Exception → Handled C V
  returned : Server C → Invoked C V → Bool → Handled C V

module _ {C : Type 0} (j : JsonOps) (registry : HandlerRegistry) where
  abbrev notify : Server C → Bytes → j.Value → Handled C j.Value
  notify s m params =
      if bytes_eq m (codes "exit")
      then returned s nothing false
      else if registry.has_notification m
      then returned s (notification m params) true
      else returned s nothing true

  abbrev call : Server C → Bytes → j.Value → j.Value → Handled C j.Value
  call s m params id =
      if registry.has_method m
      then returned s (method m params id) true
      else returned s nothing false

  abbrev replied : Outcome C (Reply j.Value) → Handled C j.Value
  replied (thrown e) = raised e
  replied (handled s events) = returned s (callbacks events) true

  unfoldable pub handle : Server C → Action j.Value → Handled C j.Value
  handle s rejected = returned s nothing false
  handle s (on_notify m params) = notify s m params
  handle s (on_call m params id) = call s m params id
  handle s (Action.on_reply id r) = replied (on_reply s (j.get_as_integer id) r)
