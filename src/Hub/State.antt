-- ===== src/Hub/State.antt =====
-- The data of internal/platform/ws/hub.go. The client's fields that the hub does not read
-- (`PrincipalType`, `GuestSessionID`, `CallID`) are left out.
use aloqa_codex.Common.{ℕ, ◌+◌, ◌%◌, ◌^◌, String, Bool, ◌&&◌, List, ◌∷◌, ltb, leb}
use aloqa_codex.Common.GoMap.{GoMap}

abbrev pub send_buf_size : ℕ
send_buf_size = 256

abbrev pub max_slow_drops : ℕ
max_slow_drops = 5

pub record Client : Type 0 where
  pub id : ℕ
  pub user_id : ℕ
  pub session_id : String
  pub resume_key : String
  pub workspace_id : ℕ
  pub has_conn : Bool  -- `Conn` is not nil
  pub send : List String  -- what the channel `Send` holds, oldest first
  pub drop_count : ℕ  -- the bits of an int32

-- What leaves the hub.
pub data Effect : Type 0 where
  close_send : ℕ → Effect  -- `close(client.Send)`
  close_conn : ℕ → String → Effect
  record_ws_dropped : Effect
  add_subscription remove_subscription : String → String → Effect
  record_delivery : ℕ → String → String → String → Effect  -- `recordDelivery` after the sends

pub record Hub : Type 0 where
  pub clients : GoMap ℕ Client
  pub rooms : GoMap String (GoMap ℕ Bool)
  pub has_state : Bool  -- a subscription store is set
  pub has_observer : Bool
  pub effects : List Effect  -- newest first

abbrev pub emit : Effect → Hub → Hub
emit e h = record h { effects = e ∷ h.effects }

-- `dropCount.Add(1)`, and `drops >= maxSlowDrops` on the int32 that it returns.
abbrev pub add_drop : ℕ → ℕ
add_drop n = (n + 1) % 2 ^ 32

abbrev pub is_slow : ℕ → Bool
is_slow n = leb max_slow_drops n && ltb n (2 ^ 31)
